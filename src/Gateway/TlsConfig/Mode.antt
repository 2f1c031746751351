-- ===== src/Gateway/TlsConfig/Mode.antt =====
-- Which `[tls]` blocks crates/hackline-gateway/src/config.rs accepts.
use hackline.Prelude.{arith, ◌≡◌, ◌↔◌, true, false, Option}
use hackline.Prelude.Text.{Text}
use hackline.Prelude.Outcome.{ok}
use hackline.Gateway.TlsConfig.{
  TlsConfig, TlsMode, acme, manual, self_signed, is_set, mode_of, mode,
}

abbrev pub IsGiven : Option Text → Type 0
IsGiven o = is_set o ≡ true

abbrev pub IsUnset : Option Text → Type 0
IsUnset o = is_set o ≡ false

-- The fields of one mode are there, and none that starts another.
abbrev pub Sets : TlsConfig → TlsMode → Type 0
Sets c acme =
    IsGiven c.acme_domain
    × IsGiven c.acme_email
    × IsUnset c.cert_path
    × IsUnset c.key_path
    × (c.self_signed ≡ false)
Sets c manual =
    IsUnset c.acme_domain × IsGiven c.cert_path × IsGiven c.key_path × (c.self_signed ≡ false)
Sets c self_signed =
    IsUnset c.acme_domain × IsUnset c.cert_path × IsUnset c.key_path × (c.self_signed ≡ true)

-- A block gives a mode just if it has the fields of that mode, the domain and the email, the two
-- paths, or the flag, and neither the domain, a path nor the flag of another mode.
pub mode_iff : (c : TlsConfig) (m : TlsMode) → (mode c ≡ ok m) ↔ Sets c m
unfolding mode mode_of
mode_iff c acme = (λ h. ground arith, λ g. ground arith)
mode_iff c manual = (λ h. ground arith, λ g. ground arith)
mode_iff c self_signed = (λ h. ground arith, λ g. ground arith)
