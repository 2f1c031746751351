-- ===== src/Tests/Tls.antt =====
-- Runs of crates/hackline-gateway/src/tls.rs.
use hackline.Prelude.{Bool, true, false, List, [], ◌∷◌, Option, none, some, ◌≡◌, refl}
use hackline.Prelude.Int.{ℤ, pos}
use hackline.Prelude.Text.{Text, lit, text_eq}
use hackline.Prelude.Outcome.{ok, err}
use hackline.Gateway.Error.{config}
use hackline.Gateway.TlsConfig.{TlsConfig}
use hackline.Gateway.Tls.{
  Host, Parsers, ◌>>=◌, read, write, exists, is_absolute, ends_open, path_join, cert_paths,
  cert_not_after_secs, within_window, needs_renewal, build_acceptor, reload,
}
use hackline.Gateway.Tls.Acme.{
  Acme, respond, challenges, bind_80, spawn_challenge_server, abort, load_account, create_account,
  load_or_create_account, place_order, complete_order, acquire_and_cache, renew, try_renew, rounds,
  spawn_renewal,
}
use hackline.Gateway.Tls.Acme.Taken.{held}
use hackline.Gateway.Tls.Acme.Held.{complete_order-rounds}
use hackline.Gateway.Tls.Acme.Renewed.{Meets, try_renew-Meets}

abbrev acme_config : TlsConfig
acme_config = record {
  acme_domain = some (lit "gw.io");
  acme_email = some (lit "ops@gw.io");
  acme_staging = false;
  acme_cache_dir = some (lit "/var/acme");
  acme_renew_before_days = 30;
  acme_check_interval_secs = 5;
  cert_path = none;
  key_path = none;
  self_signed = false;
}

abbrev answers : Option Text → Text → Bool
answers none proof = false
answers (some p) proof = text_eq p proof

-- The authority asks the responder for the proof of its token.
abbrev authority : Text → Acme Text Text Text
authority token = record {
  builder = true;
  from_json = some;
  to_json = some;
  from_credentials = some;
  create = λ contact url. some (contact, contact);
  url = λ staging. lit "https://acme";
  new_order = λ account domain. some domain;
  authorizations =
      λ order. some (record { challenge = some (lit "tok", lit "proof"); set_ready = true }) ∷ [];
  poll_ready = λ order respond. answers (respond token) (lit "proof");
  finalize = λ order. some (lit "key2");
  poll_certificate = λ order. some (lit "cert2");
  writes = λ path. true;
}

abbrev parsers : Parsers
parsers = record {
  first_block = λ pem. some (some pem);
  not_after = λ block. some (pos 5000000);
  certs = λ pem. some (pem ∷ []);
  private_key = λ pem. some (some pem);
  with_single_cert = λ certs key. true;
  reload_from_pem = λ cert key. true;
}

abbrev dir : Text
dir = lit "/var/acme"

abbrev domain : Text
domain = lit "gw.io"

abbrev email : Text
email = lit "ops@gw.io"

abbrev host : Host
host = record {
  files = λ p. if_cert (text_eq p (lit "/var/acme/gw.io.cert.pem"));
  port_80 = none;
  rest = (lit "cert1", lit "key1");
  tunnels = (lit "cert1", lit "key1");
}
  where
    if_cert : Bool → Option Text
    if_cert true = some (lit "cert1")
    if_cert false = none

-- The authority that asks for another token does not find the order ready.
failed_once :
    (acquire_and_cache (authority (lit "other")) acme_config domain email dir host).0 ≡ err config
unfolding ◌>>=◌ read write exists path_join is_absolute ends_open cert_paths respond challenges
    bind_80 spawn_challenge_server abort load_account create_account load_or_create_account
    place_order complete_order acquire_and_cache text_eq
failed_once = refl

renewed_once :
    (try_renew (authority (lit "tok")) parsers acme_config domain email dir (pos 4000000) host).0
    ≡ ok true
unfolding ◌>>=◌ read write exists path_join is_absolute ends_open cert_paths respond challenges
    bind_80 spawn_challenge_server abort load_account create_account load_or_create_account
    place_order complete_order acquire_and_cache text_eq renew try_renew reload build_acceptor
    needs_renewal within_window cert_not_after_secs
renewed_once = refl

try_renew-Meets_example :
    Meets dir domain
      (pos 4000000)
      30
      parsers
      host
      (try_renew (authority (lit "tok")) parsers acme_config domain email dir (pos 4000000) host)
try_renew-Meets_example =
    try_renew-Meets (authority (lit "tok")) acme_config domain email dir parsers (pos 4000000) host

abbrev placed : Host
placed = (place_order (authority (lit "other")) acme_config dir domain email host).1

abbrev proofs : List (Text × Text)
proofs = (lit "tok", lit "proof") ∷ []

placed-run :
    place_order (authority (lit "other")) acme_config dir domain email host
    ≡ (ok (domain, proofs), placed)
unfolding ◌>>=◌ read write exists path_join is_absolute ends_open challenges bind_80
    spawn_challenge_server load_account create_account load_or_create_account place_order text_eq
placed-run = refl

placed-fails : complete_order (authority (lit "other")) domain proofs placed ≡ (err config, placed)
unfolding ◌>>=◌ complete_order respond text_eq
placed-fails = refl

abbrev later : List (Acme Text Text Text × ℤ)
later = (authority (lit "tok"), pos 4000000) ∷ []

complete_order-rounds_example :
    held (
      rounds parsers acme_config domain email dir later
        (acquire_and_cache (authority (lit "other")) acme_config domain email dir host).1)
    ≡ (some proofs, (lit "cert1", lit "key1"), (lit "cert1", lit "key1"))
complete_order-rounds_example =
    complete_order-rounds parsers acme_config domain email dir (authority (lit "other")) host placed
      placed later placed-run placed-fails

every_minute : spawn_renewal (some dir) acme_config ≡ some (60, lit "/var/acme/gw.io.cert.pem")
unfolding spawn_renewal cert_paths path_join is_absolute ends_open
every_minute = refl
