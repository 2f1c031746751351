-- ===== src/Gateway/Tls/Acme/Renewed.antt =====
-- What one round of the renewal task of crates/hackline-gateway/src/tls.rs comes to.
use hackline.Prelude.{
  ℕ, ◌+◌, ◌*◌, ◌<◌, Bool, true, false, Option, none, some, inl, inr, ◌⊎◌, ◌≡◌, refl, sym, ap, ◌∙◌,
  if◌then◌else◌, arith,
}
use mathlib.Core.Path.{subst}
use hackline.Prelude.Int.{ℤ, pos, negsuc, pos_part, neg_part}
use hackline.Prelude.Text.{Text}
use hackline.Prelude.Outcome.{Result, ok, err}
use hackline.Gateway.Error.{GatewayError, config}
use hackline.Gateway.TlsConfig.{TlsConfig}
use hackline.Gateway.Tls.{
  ◌>>=◌, ◌>>◌, pure, or_config, check, read, Host, Parsers, needs_renewal, cert_paths,
  within_window, cert_not_after_secs, reload, set_rest, set_tunnels,
}
use hackline.Gateway.Tls.Acme.{Acme, acquire_and_cache, renew, try_renew}
use hackline.Gateway.Tls.Acme.Stored.{acquire-stored}
use hackline.Gateway.Tls.Acme.Kept.{Keeps, bind_at, bind_err, acquire_and_cache-Keeps}

-- Both kinds of listener serve one certificate, the files hold it, and port 80 is free.
abbrev pub InStep : Text → Text → Text → Text → Host → Type 0
InStep dir domain cert_pem key_pem h =
    (h.rest ≡ (cert_pem, key_pem))
    × (h.tunnels ≡ (cert_pem, key_pem))
    × (h.files (cert_paths dir domain).0 ≡ some cert_pem)
    × (h.files (cert_paths dir domain).1 ≡ some key_pem)
    × (h.port_80 ≡ none)

-- The certificate ends more than the window after now.
abbrev pub IsFresh : ℤ → ℕ → ℤ → Type 0
IsFresh now days not_after =
    pos_part now + neg_part not_after + days * 86400 < pos_part not_after + neg_part now

-- What a round may come to, from the host before it.
pub data Meets (dir domain : Text) (now : ℤ) (days : ℕ) (p : Parsers) (h : Host)
    : Result GatewayError Bool × Host → Type 0 where
  renewed :
      (cert_pem key_pem : Text) (g : Host)
      → InStep dir domain cert_pem key_pem g
      → Meets dir domain now days p h (ok true, g)
  skipped :
      (cert_pem : Text) (not_after : ℤ)
      → h.files (cert_paths dir domain).0 ≡ some cert_pem
      → cert_not_after_secs p cert_pem ≡ some not_after
      → IsFresh now days not_after
      → Meets dir domain now days p h (ok false, h)
  failed :
      (e : GatewayError) (g : Host)
      → g.tunnels ≡ h.tunnels
      → Meets dir domain now days p h (err e, g)

within_window-IsFresh :
    (now : ℤ) (days : ℕ) (not_after : ℤ)
    → within_window now days not_after ≡ false
    → IsFresh now days not_after
unfolding within_window
within_window-IsFresh (pos n) days (pos t) h = ground arith
within_window-IsFresh (pos n) days (negsuc t) h = ground arith
within_window-IsFresh (negsuc n) days (pos t) h = ground arith
within_window-IsFresh (negsuc n) days (negsuc t) h = ground arith

module _ {Creds Account Order : Type 0} (a : Acme Creds Account Order) (cfg : TlsConfig)
    (domain email dir : Text) where
  abbrev Round : Parsers → ℤ → Host → Result GatewayError Bool × Host → Type 0
  Round p now h = Meets dir domain now cfg.acme_renew_before_days p h

  reloaded :
      (p : Parsers) (now : ℤ) (h g : Host) (c k : Text) (b b' : Bool)
      → g.tunnels ≡ h.tunnels
      → g.files (cert_paths dir domain).0 ≡ some c
      → g.files (cert_paths dir domain).1 ≡ some k
      → g.port_80 ≡ none
      → Round p now h (
          ◌>>◌ {B = Bool}
            (check b >> (set_rest c k >> (check b' >> set_tunnels c k)))
            (pure true)
            g)
  unfolding ◌>>=◌
  reloaded p now h g c k false b' t e f o = failed config g t
  reloaded p now h g c k true false t e f o = failed config _ t
  reloaded p now h g c k true true t e f o = renewed c k _ (refl, refl, e, f, o)

  renewing : (p : Parsers) (now : ℤ) (h : Host) → Round p now h (renew a p cfg domain email dir h)
  unfolding renew reload Keeps
  renewing p now h = elim (after (acquire_and_cache a cfg domain email dir h) refl) [
    | inl (e, g, q) ↦
        subst (λ x. Round p now h x) (sym (bind_err _ _ q))
          (failed e g (served g (ap (λ x. x.1) q)))
    | inr (pair, g, q) ↦
        let (f0, f1, o) = acquire-stored a cfg domain email dir h g q in
        subst (λ x. Round p now h x) (sym (bind_at _ _ q))
          (reloaded p now h g pair.0 pair.1 _ _ (served g (ap (λ x. x.1) q)) f0 f1 o)
  ]
    where
      after :
          (x : Result GatewayError (Text × Text) × Host)
          {y : Result GatewayError (Text × Text) × Host}
          → y ≡ x
          → ((e : GatewayError) × (g : Host) × (y ≡ (err e, g)))
            ⊎ ((c : Text × Text) × (g : Host) × (y ≡ (ok c, g)))
      after (ok c, g) q = inr (c, g, q)
      after (err e, g) q = inl (e, g, q)

      served :
          (g : Host) → (acquire_and_cache a cfg domain email dir h).1 ≡ g → g.tunnels ≡ h.tunnels
      served g q =
          ap (λ x. x.tunnels) (sym q)
          ∙ acquire_and_cache-Keeps (λ x. x.tunnels) (λ h f. refl) a (λ h o. refl) cfg domain email
              dir h

  decided :
      (p : Parsers) (now : ℤ) (h : Host) (cert_pem : Text) (not_after : ℤ) (due : Bool)
      → h.files (cert_paths dir domain).0 ≡ some cert_pem
      → cert_not_after_secs p cert_pem ≡ some not_after
      → within_window now cfg.acme_renew_before_days not_after ≡ due
      → Round p now h ((if due then renew a p cfg domain email dir else pure false) h)
  decided p now h cert_pem not_after true f n w = renewing p now h
  decided p now h cert_pem not_after false f n w =
      skipped cert_pem not_after f n (within_window-IsFresh now _ not_after w)

  dated :
      (p : Parsers) (now : ℤ) (h : Host) (cert_pem : Text) (o : Option ℤ)
      → h.files (cert_paths dir domain).0 ≡ some cert_pem
      → cert_not_after_secs p cert_pem ≡ o
      → Round p now h (
          ((or_config o >>= λ t. pure (within_window now cfg.acme_renew_before_days t)) >>= λ due.
          if due then renew a p cfg domain email dir else pure false)
            h)
  unfolding ◌>>=◌
  dated p now h cert_pem none f n = failed config h refl
  dated p now h cert_pem (some t) f n = decided p now h cert_pem t _ f n refl

  found :
      (p : Parsers) (now : ℤ) (h : Host) (o : Option Text)
      → h.files (cert_paths dir domain).0 ≡ o
      → Round p now h (
          (or_config o >>= λ cert_pem.
          needs_renewal p now cert_pem cfg.acme_renew_before_days >>= λ due.
          if due then renew a p cfg domain email dir else pure false)
            h)
  unfolding ◌>>=◌ needs_renewal
  found p now h none f = failed config h refl
  found p now h (some pem) f = dated p now h pem (cert_not_after_secs p pem) f refl

  -- A round of the renewal task either installs one acquired certificate in both kinds of listener and
  -- in the two files and leaves port 80 free, or changes nothing since the cached certificate ends more
  -- than the window after now, or fails and leaves what the tunnels serve.
  pub try_renew-Meets :
      (p : Parsers) (now : ℤ) (h : Host)
      → Meets dir domain now cfg.acme_renew_before_days p h
          (try_renew a p cfg domain email dir now h)
  unfolding try_renew read ◌>>=◌
  try_renew-Meets p now h = found p now h (h.files (cert_paths dir domain).0) refl
