-- ===== src/Gateway/TlsConfig.antt =====
-- The `[tls]` block of crates/hackline-gateway/src/config.rs, and which mode it sets.
pub mod Mode
use hackline.Prelude.{ℕ, Bool, true, false, ◌||◌, Option, none, some}
use hackline.Prelude.Text.{Text}
use hackline.Prelude.Outcome.{Result, ok, err}
use hackline.Gateway.Error.{GatewayError, config}

pub record TlsConfig : Type 0 where
  pub acme_domain : Option Text
  pub acme_email : Option Text
  pub acme_staging : Bool
  pub acme_cache_dir : Option Text
  pub acme_renew_before_days : ℕ
  pub acme_check_interval_secs : ℕ
  pub cert_path : Option Text
  pub key_path : Option Text
  pub self_signed : Bool

pub data TlsMode : Type 0 where
  acme manual self_signed : TlsMode

abbrev pub is_set : Option Text → Bool
is_set none = false
is_set (some _) = true

-- The `match` of `mode`.
unfoldable pub mode_of : TlsConfig → Bool → Bool → Bool → Result GatewayError TlsMode
mode_of c true false false = elim c.acme_email [ none ↦ err config | some _ ↦ ok acme ]
mode_of c false true false = elim c.cert_path [
  | none ↦ err config
  | some _ ↦ elim c.key_path [ none ↦ err config | some _ ↦ ok manual ]
]
mode_of c false false true = ok self_signed
mode_of c false false false = err config
mode_of c true true _ = err config
mode_of c true false true = err config
mode_of c false true true = err config

unfoldable pub mode : TlsConfig → Result GatewayError TlsMode
unfolding mode_of
mode c = mode_of c (is_set c.acme_domain) (is_set c.cert_path || is_set c.key_path) c.self_signed
