-- ===== src/Gateway/Tls.antt =====
-- crates/hackline-gateway/src/tls.rs: where certificates are kept, what a certificate's end says of its
-- renewal, and the reload of both kinds of listener. The parsers of PEM and X.509 and rustls are fields
-- of `Parsers`; a file that is written is, or the writing fails as an argument says.
pub mod Acme
pub mod Init
use hackline.Prelude.{
  ℕ, ◌+◌, ◌*◌, Bool, true, false, ◌||◌, List, [], ◌∷◌, ◌++◌, Option, none, some, ◌==◌,
  if◌then◌else◌,
}
use hackline.Prelude.Int.{ℤ, pos, leb_ℤ, sub_ℕ, pos_part, neg_part}
use hackline.Prelude.Text.{Text, lit, text_eq}
use hackline.Prelude.Outcome.{Result, ok, err}
use hackline.Gateway.Error.{GatewayError, config}
use hackline.Gateway.TlsConfig.{TlsConfig, is_set}

-- `PathBuf::join` of the standard library, on Unix.
unfoldable pub is_absolute : Text → Bool
is_absolute [] = false
is_absolute (c ∷ _) = c == 47

unfoldable pub ends_open : Text → Bool
ends_open [] = false
ends_open (c ∷ []) = if c == 47 then false else true
ends_open (_ ∷ c ∷ s) = ends_open (c ∷ s)

unfoldable pub path_join : Text → Text → Text
unfolding is_absolute ends_open
path_join dir name =
    if is_absolute name then name else if ends_open dir then dir ++ 47 ∷ name else dir ++ name

abbrev or_else : Option Text → Option Text → Option Text
or_else none b = b
or_else (some a) b = some a

abbrev unwrap_or : Option Text → Text → Text
unwrap_or none b = b
unwrap_or (some a) b = a

-- The first two arguments are the state directory and the local data directory of the user.
unfoldable pub resolve_cache_dir : Option Text → Option Text → TlsConfig → Text
unfolding path_join
resolve_cache_dir state_dir data_local_dir cfg = unwrap_or cfg.acme_cache_dir (
    path_join (path_join (unwrap_or (or_else state_dir data_local_dir) (lit ".")) (lit "hackline"))
      (lit "acme"))

unfoldable pub cert_paths : Text → Text → Text × Text
unfolding path_join
cert_paths cache_dir domain = (
  path_join cache_dir (domain ++ lit ".cert.pem"),
  path_join cache_dir (domain ++ lit ".key.pem"),
)

-- The files, the map of the challenge responder that holds port 80, if one does, and the certificate
-- with its key that each kind of listener serves.
pub record Host : Type 0 where
  pub files : Text → Option Text
  pub port_80 : Option (List (Text × Text))
  pub rest : Text × Text
  pub tunnels : Text × Text

-- A call that may fail: what it changed before it fails stays changed.
abbrev pub Call : Type 0 → Type 0
Call A = Host → Result GatewayError A × Host

infixl 5 ◌>>=◌ ◌>>◌
unfoldable pub ◌>>=◌ : {A B : Type 0} → Call A → (A → Call B) → Call B
◌>>=◌ m f h = let (r, g) = m h in elim r [ ok a ↦ f a g | err e ↦ (err e, g) ]

abbrev pub ◌>>◌ : {A B : Type 0} → Call A → Call B → Call B
m >> k = m >>= λ _. k

abbrev pub pure : {A : Type 0} → A → Call A
pure a h = (ok a, h)

-- Every failure of this file is a `GatewayError::Config`.
abbrev pub or_config : {A : Type 0} → Option A → Call A
or_config none h = (err config, h)
or_config (some a) h = (ok a, h)

abbrev pub check : Bool → Call (Unit {0})
check true h = (ok tt, h)
check false h = (err config, h)

-- `tokio::fs::read`, `tokio::fs::write` (the Boolean says whether it succeeds) and `Path::exists`.
unfoldable pub read : Text → Call Text
read path h = or_config (h.files path) h

unfoldable pub exists : Text → Call Bool
exists path h = pure (is_set (h.files path)) h

unfoldable pub write : Bool → Text → Text → Call (Unit {0})
write false path bytes h = (err config, h)
write true path bytes h =
    (ok tt, record h { files = λ p. if text_eq p path then some bytes else h.files p })

-- What `x509_parser` gives, the first PEM block and the `notAfter` of its certificate, what
-- `rustls_pemfile` gives, and whether rustls takes a certificate with its key.
pub record Parsers : Type 0 where
  pub first_block : Text → Option (Option Text)
  pub not_after : Text → Option ℤ
  pub certs : Text → Option (List Text)
  pub private_key : Text → Option (Option Text)
  pub with_single_cert : List Text → Text → Bool
  pub reload_from_pem : Text → Text → Bool

unfoldable pub cert_not_after_secs : Parsers → Text → Option ℤ
cert_not_after_secs p cert_pem = elim (p.first_block cert_pem) [
  | none ↦ none
  | some none ↦ none
  | some (some contents) ↦ p.not_after contents
]

-- `needs_renewal` at the Unix time `now`.
unfoldable pub within_window : ℤ → ℕ → ℤ → Bool
within_window now renew_before_days not_after =
    let left = sub_ℕ (pos_part not_after + neg_part now) (neg_part not_after + pos_part now) in
    leb_ℤ left (pos (renew_before_days * 24 * 60 * 60))

unfoldable pub needs_renewal : Parsers → ℤ → Text → ℕ → Call Bool
needs_renewal p now cert_pem renew_before_days = do
  not_after ← or_config (cert_not_after_secs p cert_pem)
  pure (within_window now renew_before_days not_after)

-- Whether the acceptor is built.
unfoldable pub build_acceptor : Parsers → Text → Text → Bool
build_acceptor p cert_pem key_pem = elim (p.certs cert_pem) [
  | none ↦ false
  | some certs ↦ elim (p.private_key key_pem) [
    | none ↦ false
    | some none ↦ false
    | some (some key) ↦ p.with_single_cert certs key
  ]
]

-- `RustlsConfig::reload_from_pem` and the swap of the acceptor, where they succeed.
abbrev pub set_rest : Text → Text → Call (Unit {0})
set_rest cert_pem key_pem h = (ok tt, record h { rest = (cert_pem, key_pem) })

abbrev pub set_tunnels : Text → Text → Call (Unit {0})
set_tunnels cert_pem key_pem h = (ok tt, record h { tunnels = (cert_pem, key_pem) })

-- The REST listener has the new certificate before the acceptor of the tunnels is built.
unfoldable pub reload : Parsers → Text → Text → Call (Unit {0})
reload p cert_pem key_pem = do
  check (p.reload_from_pem cert_pem key_pem)
  set_rest cert_pem key_pem
  check (build_acceptor p cert_pem key_pem)
  set_tunnels cert_pem key_pem
