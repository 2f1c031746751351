-- ===== src/Gateway/Tls/Acme/Stored.antt =====
-- What an acquisition of crates/hackline-gateway/src/tls.rs leaves where it succeeds.
use hackline.Prelude.{
  ℕ, suc, Bool, true, false, List, [], ◌∷◌, ◌++◌, length, length-append, Option, none, some, ◌≡◌,
  ◌≢◌, refl, sym, ap, ◌∙◌, if◌then◌else◌, arith,
}
use hackline.Prelude.Text.{Text, lit, text_eq_refl, text_eq_of_ne}
use hackline.Prelude.Outcome.{ok, err_ne_ok, ok_inj}
use hackline.Gateway.TlsConfig.{TlsConfig}
use hackline.Gateway.Tls.{
  ◌>>=◌, ◌>>◌, pure, or_config, check, write, Host, cert_paths, path_join, is_absolute, ends_open,
}
use hackline.Gateway.Tls.Acme.{Acme, respond, abort, complete_order, acquire_and_cache}
use hackline.Gateway.Tls.Acme.Kept.{bind_ok}

is_absolute-append :
    (s t u : Text) → is_absolute t ≡ is_absolute u → is_absolute (s ++ t) ≡ is_absolute (s ++ u)
unfolding is_absolute
is_absolute-append [] t u e = e
is_absolute-append (c ∷ s) t u e = refl

append_ne : (p s t : Text) → p ++ s ≡ p ++ t → length s ≡ length t
append_ne p s t e =
    let q : length (p ++ s) ≡ length (p ++ t) = ap length e in
    omega (arith, length-append p s, length-append p t)

suc_inj : {m n : ℕ} → suc m ≡ suc n → m ≡ n
suc_inj e = omega arith

joined_ne :
    (b c : Bool) (dir s t : Text)
    → length s ≢ length t
    → (if b then s else if c then dir ++ 47 ∷ s else dir ++ s)
      ≢ (if b then t else if c then dir ++ 47 ∷ t else dir ++ t)
joined_ne true c dir s t n e = n (ap length e)
joined_ne false true dir s t n e = n (suc_inj (append_ne dir (47 ∷ s) (47 ∷ t) e))
joined_ne false false dir s t n e = n (append_ne dir s t e)

-- The two files of a domain are not the same.
cert_paths_ne : (dir domain : Text) → (cert_paths dir domain).0 ≢ (cert_paths dir domain).1
unfolding cert_paths path_join
cert_paths_ne dir domain =
    let a =
      is_absolute-append domain (lit ".cert.pem") (lit ".key.pem") (unfold is_absolute in refl) in
    let l = length-append domain (lit ".cert.pem") in
    let r = length-append domain (lit ".key.pem") in
    rw a
      (joined_ne (is_absolute (domain ++ lit ".key.pem")) (ends_open dir) dir _ _ λ e. omega arith)

stored :
    (b b' : Bool) (path path' : Text) {pair : Text × Text} (c k : Text) (h g : Host)
    → path ≢ path'
    → h.port_80 ≡ none
    → ◌>>◌ {B = Text × Text} (write b path c) (write b' path' k >> pure (c, k)) h ≡ (ok pair, g)
    → (g.files path ≡ some pair.0) × (g.files path' ≡ some pair.1) × (g.port_80 ≡ none)
unfolding ◌>>=◌ write
stored false b' path path' c k h g n o e = err_ne_ok (ap (λ x. x.0) e)
stored true false path path' c k h g n o e = err_ne_ok (ap (λ x. x.0) e)
stored true true path path' c k h g n o e =
    let q = ok_inj (ap (λ x. x.0) e) in
    let r = sym (ap (λ x. x.1) e) in
    (
      ap (λ x. x.files path) r
          ∙ (rw (text_eq_of_ne path path' n, text_eq_refl path) (ap (λ x. some x.0) q)),
      ap (λ x. x.files path') r ∙ (rw (text_eq_refl path') (ap (λ x. some x.1) q)),
      ap (λ x. x.port_80) r ∙ o,
    )

freed :
    (b : Bool) (k c : Option Text) {pair : Text × Text} (h : Host) {g : Host}
    → (check b >> (or_config k >>= λ key. or_config c >>= λ chain. abort >> pure (chain, key))) h
      ≡ (ok pair, g)
    → g.port_80 ≡ none
unfolding ◌>>=◌ abort
freed false k c h e = err_ne_ok (ap (λ x. x.0) e)
freed true none c h e = err_ne_ok (ap (λ x. x.0) e)
freed true (some _) none h e = err_ne_ok (ap (λ x. x.0) e)
freed true (some _) (some _) h e = ap (λ x. x.1.port_80) (sym e)

module _ {Creds Account Order : Type 0} (a : Acme Creds Account Order) (cfg : TlsConfig)
    (domain email dir : Text) where
  complete_order-frees :
      (order : Order) (tokens : List (Text × Text)) {pair : Text × Text} (h : Host) {g : Host}
      → complete_order a order tokens h ≡ (ok pair, g)
      → g.port_80 ≡ none
  unfolding complete_order
  complete_order-frees order tokens h e =
      freed (a.poll_ready order (respond tokens)) (a.finalize order) (a.poll_certificate order) h e

  pub acquire-stored :
      {pair : Text × Text} (h g : Host)
      → acquire_and_cache a cfg domain email dir h ≡ (ok pair, g)
      → (g.files (cert_paths dir domain).0 ≡ some pair.0)
        × (g.files (cert_paths dir domain).1 ≡ some pair.1)
        × (g.port_80 ≡ none)
  unfolding acquire_and_cache
  acquire-stored h g e =
      let (order, g1, _, r1) = bind_ok _ _ e in
      let (pair, g2, q2, r2) = bind_ok _ _ r1 in
      stored _ _ _ _ pair.0 pair.1 g2 g (cert_paths_ne dir domain)
        (complete_order-frees order.0 order.1 g1 q2) r2
