-- ===== src/Gateway/Tls/Acme.antt =====
-- The acquisition of a certificate in crates/hackline-gateway/src/tls.rs, and the round of the
-- renewal task that asks for one.
pub mod Kept
pub mod Stored
pub mod Renewed
pub mod Taken
pub mod Held
use hackline.Prelude.{
  ℕ, Bool, true, false, ◌&&◌, List, [], ◌∷◌, ◌++◌, Option, none, some, if◌then◌else◌, ltb,
}
use hackline.Prelude.Int.{ℤ}
use hackline.Prelude.Text.{Text, lit, text_eq}
use hackline.Prelude.Outcome.{Result, ok, err}
use hackline.Gateway.Error.{GatewayError, config}
use hackline.Gateway.TlsConfig.{TlsConfig}
use hackline.Gateway.Tls.{
  Call, ◌>>=◌, ◌>>◌, pure, or_config, check, read, exists, write, Host, Parsers, cert_paths,
  path_join, needs_renewal, reload,
}

-- An authorization of an order: its HTTP-01 challenge, if one is offered, as a token with the key
-- authorization, and whether the authority takes it as ready.
pub record Authz : Type 0 where
  pub challenge : Option (Text × Text)
  pub set_ready : Bool

-- What `instant_acme` and the authority answer during one acquisition. The authority asks the
-- responder, so `poll_ready` is given what port 80 answers.
pub record Acme (Creds Account Order : Type 0) : Type 0 where
  pub builder : Bool
  pub from_json : Text → Option Creds
  pub to_json : Creds → Option Text
  pub from_credentials : Creds → Option Account
  pub create : Text → Text → Option (Account × Creds)
  pub url : Bool → Text
  pub new_order : Account → Text → Option Order
  pub authorizations : Order → List (Option Authz)
  pub poll_ready : Order → (Text → Option Text) → Bool
  pub finalize : Order → Option Text
  pub poll_certificate : Order → Option Text
  pub writes : Text → Bool

-- The map of the responder, the last insertion first, and its answer: none is a 404.
unfoldable pub respond : List (Text × Text) → Text → Option Text
respond [] token = none
respond ((t, proof) ∷ tokens) token =
    let rest = respond tokens token in if text_eq t token then some proof else rest

-- The loop over the authorizations.
unfoldable pub challenges : List (Text × Text) → List (Option Authz) → Option (List (Text × Text))
challenges acc [] = some acc
challenges acc (none ∷ authzs) = none
challenges acc (some a ∷ authzs) = elim a.challenge [
  | none ↦ none
  | some ka ↦ elim a.set_ready [ true ↦ challenges (ka ∷ acc) authzs | false ↦ none ]
]

-- The responder holds port 80, which must be free, until its task is aborted.
-- The first argument is who holds it.
unfoldable pub bind_80 : Option (List (Text × Text)) → List (Text × Text) → Call (Unit {0})
bind_80 none tokens h = (ok tt, record h { port_80 = some tokens })
bind_80 (some _) tokens h = (err config, h)

unfoldable pub spawn_challenge_server : List (Text × Text) → Call (Unit {0})
unfolding bind_80
spawn_challenge_server tokens h = bind_80 h.port_80 tokens h

unfoldable pub abort : Call (Unit {0})
abort h = (ok tt, record h { port_80 = none })

module _ {Creds Account Order : Type 0} where
  unfoldable pub load_account : Acme Creds Account Order → Text → Call Account
  load_account a path = do
    json ← read path
    creds ← or_config (a.from_json json)
    or_config (a.from_credentials creds)

  unfoldable pub create_account : Acme Creds Account Order → Text → Text → Text → Call Account
  create_account a path directory_url email = do
    (account, creds) ← or_config (a.create (lit "mailto:" ++ email) directory_url)
    json ← or_config (a.to_json creds)
    write (a.writes path) path json
    pure account

  unfoldable pub load_or_create_account :
      Acme Creds Account Order → Text → Text → Text → Call Account
  load_or_create_account a path directory_url email = do
    check a.builder
    cached ← exists path
    if cached then load_account a path else create_account a path directory_url email

  -- From the order to the start of the responder.
  unfoldable pub place_order :
      Acme Creds Account Order → TlsConfig → Text → Text → Text → Call (Order × List (Text × Text))
  place_order a cfg cache_dir domain email = do
    account ←
        load_or_create_account a (path_join cache_dir (lit "account.json")) (a.url cfg.acme_staging)
          email
    order ← or_config (a.new_order account domain)
    tokens ← or_config (challenges [] (a.authorizations order))
    spawn_challenge_server tokens
    pure (order, tokens)

  -- From there to the end of the order: `abort` comes only after the three calls.
  unfoldable pub complete_order :
      Acme Creds Account Order → Order → List (Text × Text) → Call (Text × Text)
  complete_order a order tokens = do
    check (a.poll_ready order (respond tokens))
    key_pem ← or_config (a.finalize order)
    cert_chain ← or_config (a.poll_certificate order)
    abort
    pure (cert_chain, key_pem)

  -- `domain` and `email` are the configured ones: `mode` is ACME only where both are given.
  unfoldable pub acquire_and_cache :
      Acme Creds Account Order → TlsConfig → Text → Text → Text → Call (Text × Text)
  acquire_and_cache a cfg domain email cache_dir = do
    let (cert_file, key_file) = cert_paths cache_dir domain
    (order, tokens) ← place_order a cfg cache_dir domain email
    (cert_chain, key_pem) ← complete_order a order tokens
    write (a.writes cert_file) cert_file cert_chain
    write (a.writes key_file) key_file key_pem
    pure (cert_chain, key_pem)

  -- The second half of `try_renew`.
  unfoldable pub renew :
      Acme Creds Account Order → Parsers → TlsConfig → Text → Text → Text → Call Bool
  renew a p cfg domain email cache_dir = do
    (cert_chain, key_pem) ← acquire_and_cache a cfg domain email cache_dir
    reload p cert_chain key_pem
    pure true

  -- One round of the renewal task at the time `now`.
  unfoldable pub try_renew :
      Acme Creds Account Order → Parsers → TlsConfig → Text → Text → Text → ℤ → Call Bool
  try_renew a p cfg domain email cache_dir now = do
    cert_pem ← read (cert_paths cache_dir domain).0
    due ← needs_renewal p now cert_pem cfg.acme_renew_before_days
    if due then renew a p cfg domain email cache_dir else pure false

  -- The loop of `spawn_renewal`: a round's failure is logged. Each round has its own answers and time.
  unfoldable pub rounds :
      Parsers → TlsConfig → Text → Text → Text → List (Acme Creds Account Order × ℤ) → Host → Host
  rounds p cfg domain email cache_dir [] h = h
  rounds p cfg domain email cache_dir ((a, now) ∷ rs) h =
      rounds p cfg domain email cache_dir rs (try_renew a p cfg domain email cache_dir now h).1

-- `spawn_renewal` before it starts the task: the seconds between rounds and the file that they read.
unfoldable pub spawn_renewal : Option Text → TlsConfig → Option (ℕ × Text)
spawn_renewal none cfg = none
spawn_renewal (some cache_dir) cfg = elim cfg.acme_domain [
  | none ↦ none
  | some domain ↦ some (
    if ltb cfg.acme_check_interval_secs 60 then 60 else cfg.acme_check_interval_secs,
    (cert_paths cache_dir domain).0,
  )
]
