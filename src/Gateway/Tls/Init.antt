-- ===== src/Gateway/Tls/Init.antt =====
-- `init` of crates/hackline-gateway/src/tls.rs: the first certificate, in each mode.
use hackline.Prelude.{Bool, true, false, ◌&&◌, Option, none, some, ◌≡◌, sym, ap, ◌∙◌, if◌then◌else◌}
use hackline.Prelude.Int.{ℤ}
use hackline.Prelude.Text.{Text}
use hackline.Prelude.Outcome.{Result, ok, err, err_ne_ok}
use hackline.Gateway.Error.{GatewayError}
use hackline.Gateway.TlsConfig.{TlsConfig, TlsMode, acme, manual, self_signed, mode}
use hackline.Gateway.Tls.{
  Call, ◌>>=◌, ◌>>◌, pure, or_config, check, read, exists, Host, Parsers, cert_paths, needs_renewal,
  build_acceptor, set_rest, set_tunnels,
}
use hackline.Gateway.Tls.Acme.{Acme, acquire_and_cache}
use hackline.Gateway.Tls.Acme.Kept.{bind_ok}

-- `build_state_from_pem`; the first argument says whether `RustlsConfig::from_pem` succeeds. It gives
-- the state's `acme_cache_dir`.
unfoldable pub build_state_from_pem :
    Bool → Parsers → Text → Text → Option Text → Call (Option Text)
build_state_from_pem from_pem p cert_pem key_pem acme_cache_dir = do
  check from_pem
  check (build_acceptor p cert_pem key_pem)
  set_rest cert_pem key_pem
  set_tunnels cert_pem key_pem
  pure acme_cache_dir

-- `init_self_signed` with the pair that `rcgen` makes, if it makes one.
unfoldable pub init_self_signed : Bool → Parsers → Option (Text × Text) → Call (Option Text)
init_self_signed from_pem p generated = do
  (cert_pem, key_pem) ← or_config generated
  build_state_from_pem from_pem p cert_pem key_pem none

unfoldable pub init_manual : Bool → Parsers → TlsConfig → Call (Option Text)
init_manual from_pem p cfg = do
  cert_path ← or_config cfg.cert_path
  key_path ← or_config cfg.key_path
  cert_pem ← read cert_path
  key_pem ← read key_path
  build_state_from_pem from_pem p cert_pem key_pem none

module _ {Creds Account Order : Type 0} where
  unfoldable pub read_cached :
      Acme Creds Account Order → Parsers → TlsConfig → Text → Text → Text → ℤ → Call (Text × Text)
  read_cached a p cfg domain email cache_dir now = do
    let (cert_file, key_file) = cert_paths cache_dir domain
    cert_pem ← read cert_file
    key_pem ← read key_file
    due ← needs_renewal p now cert_pem cfg.acme_renew_before_days
    if due then acquire_and_cache a cfg domain email cache_dir else pure (cert_pem, key_pem)

  -- `init_acme`; `made` says whether `create_dir_all` succeeds.
  unfoldable pub init_acme :
      Acme Creds Account Order
      → Bool
      → Bool
      → Parsers
      → TlsConfig
      → Text
      → Text
      → Text
      → ℤ
      → Call (Option Text)
  init_acme a made from_pem p cfg domain email cache_dir now = do
    check made
    let (cert_file, key_file) = cert_paths cache_dir domain
    has_cert ← exists cert_file
    has_key ← exists key_file
    (cert_pem, key_pem) ←
        if has_cert && has_key
        then read_cached a p cfg domain email cache_dir now
        else acquire_and_cache a cfg domain email cache_dir
    build_state_from_pem from_pem p cert_pem key_pem (some cache_dir)

  -- `init`; the domain and the email are the configured ones.
  unfoldable pub init :
      Acme Creds Account Order
      → Bool
      → Bool
      → Parsers
      → Option (Text × Text)
      → TlsConfig
      → Text
      → Text
      → Text
      → ℤ
      → Call (Option Text)
  init a made from_pem p generated cfg domain email cache_dir now h = elim (mode cfg) [
    | err e ↦ (err e, h)
    | ok acme ↦ init_acme a made from_pem p cfg domain email cache_dir now h
    | ok manual ↦ init_manual from_pem p cfg h
    | ok self_signed ↦ init_self_signed from_pem p generated h
  ]

built :
    (b b' : Bool) (c k : Text) (d : Option Text) {o : Option Text} (h g : Host)
    → ◌>>◌ {B = Option Text} (check b) (check b' >> (set_rest c k >> (set_tunnels c k >> pure d))) h
      ≡ (ok o, g)
    → g.rest ≡ g.tunnels
unfolding ◌>>=◌
built false b' c k d h g e = err_ne_ok (ap (λ x. x.0) e)
built true false c k d h g e = err_ne_ok (ap (λ x. x.0) e)
built true true c k d h g e = ap (λ x. x.1.rest) (sym e) ∙ ap (λ x. x.1.tunnels) e

build-served :
    (from_pem : Bool) (p : Parsers) (c k : Text) (d : Option Text) {o : Option Text} (h g : Host)
    → build_state_from_pem from_pem p c k d h ≡ (ok o, g)
    → g.rest ≡ g.tunnels
unfolding build_state_from_pem
build-served from_pem p c k d h g e = built from_pem (build_acceptor p c k) c k d h g e

self_signed-served :
    (from_pem : Bool) (p : Parsers) (generated : Option (Text × Text)) {o : Option Text}
    (h g : Host)
    → init_self_signed from_pem p generated h ≡ (ok o, g)
    → g.rest ≡ g.tunnels
unfolding init_self_signed
self_signed-served from_pem p generated h g e =
    let (pair, g1, _, r) = bind_ok _ _ e in build-served from_pem p pair.0 pair.1 none g1 g r

manual-served :
    (from_pem : Bool) (p : Parsers) (cfg : TlsConfig) {o : Option Text} (h g : Host)
    → init_manual from_pem p cfg h ≡ (ok o, g)
    → g.rest ≡ g.tunnels
unfolding init_manual
manual-served from_pem p cfg h g e =
    let (_, _, _, r) = bind_ok _ _ e in
    let (_, _, _, r) = bind_ok _ _ r in
    let (c, _, _, r) = bind_ok _ _ r in
    let (k, g1, _, r) = bind_ok _ _ r in build-served from_pem p c k none g1 g r

module _ {Creds Account Order : Type 0} (a : Acme Creds Account Order) (made from_pem : Bool)
    (p : Parsers) (cfg : TlsConfig) (domain email cache_dir : Text) (now : ℤ) where
  acme-served :
      {o : Option Text} (h g : Host)
      → init_acme a made from_pem p cfg domain email cache_dir now h ≡ (ok o, g)
      → g.rest ≡ g.tunnels
  unfolding init_acme
  acme-served h g e =
      let (_, _, _, r) = bind_ok _ _ e in
      let (_, _, _, r) = bind_ok _ _ r in
      let (_, _, _, r) = bind_ok _ _ r in
      let (pair, g1, _, r) = bind_ok _ _ r in
      build-served from_pem p pair.0 pair.1 (some cache_dir) g1 g r

  -- In every mode, a gateway that starts serves one certificate on both kinds of listener.
  init-served :
      (generated : Option (Text × Text)) {o : Option Text} (h g : Host)
      → init a made from_pem p generated cfg domain email cache_dir now h ≡ (ok o, g)
      → g.rest ≡ g.tunnels
  unfolding init
  init-served generated h g e = of_mode (mode cfg) e
    where
      of_mode :
          (m : Result GatewayError TlsMode) {o : Option Text}
          → ◌≡◌ {A = Result GatewayError (Option Text) × Host}
              (elim m [
                | err e ↦ (err e, h)
                | ok acme ↦ init_acme a made from_pem p cfg domain email cache_dir now h
                | ok manual ↦ init_manual from_pem p cfg h
                | ok self_signed ↦ init_self_signed from_pem p generated h
              ])
              (ok o, g)
          → g.rest ≡ g.tunnels
      of_mode (err _) e = err_ne_ok (ap (λ x. x.0) e)
      of_mode (ok acme) e = acme-served h g e
      of_mode (ok manual) e = manual-served from_pem p cfg h g e
      of_mode (ok self_signed) e = self_signed-served from_pem p generated h g e
