-- ===== src/Gateway/Tls/Acme/Taken.antt =====
-- What happens in crates/hackline-gateway/src/tls.rs while a challenge responder holds port 80.
use hackline.Prelude.{
  ℕ, Bool, true, false, List, [], ◌∷◌, Option, none, some, ◌≡◌, refl, ap, ◌∙◌, if◌then◌else◌,
}
use hackline.Prelude.Int.{ℤ}
use hackline.Prelude.Text.{Text}
use hackline.Prelude.Outcome.{Result, ok, err}
use hackline.Gateway.Error.{GatewayError, config}
use hackline.Gateway.TlsConfig.{TlsConfig}
use hackline.Gateway.Tls.{Call, ◌>>=◌, pure, Host, Parsers, needs_renewal}
use hackline.Gateway.Tls.Acme.{
  Acme, bind_80, spawn_challenge_server, place_order, acquire_and_cache, renew, try_renew, rounds,
}
use hackline.Gateway.Tls.Acme.Kept.{
  Keeps, bind-Keeps, pure-Keeps, or_config-Keeps, read-Keeps, load_or_create_account-Keeps,
}

abbrev pub Held : Type 0
Held = Option (List (Text × Text)) × (Text × Text) × (Text × Text)

-- The holder of the port, and what the listeners serve.
abbrev pub held : Host → Held
held h = (h.port_80, h.rest, h.tunnels)

-- The call fails and leaves the part that is named.
data Fails (s : Held) {A : Type 0} : Result GatewayError A × Host → Type 0 where
  fails : (e : GatewayError) (g : Host) → held g ≡ s → Fails s (err e, g)

first-Fails :
    {A B : Type 0} {s : Held} (x : Result GatewayError A × Host) (f : A → Call B) (h : Host)
    → Fails s x
    → Fails s (◌>>=◌ (λ _. x) f h)
unfolding ◌>>=◌
first-Fails _ f h (fails e g q) = fails e g q

then-Fails :
    {A B : Type 0} {s : Held} (x : Result GatewayError A × Host) (f : A → Call B) (h : Host)
    → held x.1 ≡ s
    → ((a : A) (g : Host) → held g ≡ s → Fails s (f a g))
    → Fails s (◌>>=◌ (λ _. x) f h)
unfolding ◌>>=◌
then-Fails (ok a, g) f h q k = k a g q
then-Fails (err e, g) f h q k = fails e g q

bind_first :
    {A B : Type 0} {s : Held} (m : Call A) (f : A → Call B) (h : Host)
    → Fails s (m h)
    → Fails s ((m >>= f) h)
unfolding ◌>>=◌
bind_first m f h q = first-Fails (m h) f h q

bind_then :
    {A B : Type 0} {s : Held} (m : Call A) (f : A → Call B) (h : Host)
    → Keeps held m
    → held h ≡ s
    → ((a : A) (g : Host) → held g ≡ s → Fails s (f a g))
    → Fails s ((m >>= f) h)
unfolding ◌>>=◌ Keeps
bind_then m f h km q k = then-Fails (m h) f h (km h ∙ q) k

-- The call leaves it, whether it fails or not.
data Holds (s : Held) {A : Type 0} : Result GatewayError A × Host → Type 0 where
  holds : (x : Result GatewayError A × Host) → held x.1 ≡ s → Holds s x

Fails-Holds : {A : Type 0} {s : Held} {x : Result GatewayError A × Host} → Fails s x → Holds s x
Fails-Holds (fails e g q) = holds (err e, g) q

then-Holds :
    {A B : Type 0} {s : Held} (x : Result GatewayError A × Host) (f : A → Call B) (h : Host)
    → held x.1 ≡ s
    → ((a : A) (g : Host) → held g ≡ s → Holds s (f a g))
    → Holds s (◌>>=◌ (λ _. x) f h)
unfolding ◌>>=◌
then-Holds (ok a, g) f h q k = k a g q
then-Holds (err e, g) f h q k = holds (err e, g) q

bind-Holds :
    {A B : Type 0} {s : Held} (m : Call A) (f : A → Call B) (h : Host)
    → Keeps held m
    → held h ≡ s
    → ((a : A) (g : Host) → held g ≡ s → Holds s (f a g))
    → Holds s ((m >>= f) h)
unfolding ◌>>=◌ Keeps
bind-Holds m f h km q k = then-Holds (m h) f h (km h ∙ q) k

bind_80_taken :
    (o : Option (List (Text × Text))) (tokens : List (Text × Text)) {m : List (Text × Text)}
    {l : (Text × Text) × (Text × Text)} (h : Host)
    → o ≡ some m
    → held h ≡ (some m, l.0, l.1)
    → Fails (some m, l.0, l.1) (bind_80 o tokens h)
unfolding bind_80
bind_80_taken none tokens h e q = cc
bind_80_taken (some _) tokens h e q = fails config h q

module _ {Creds Account Order : Type 0} (a : Acme Creds Account Order) (cfg : TlsConfig)
    (domain email dir : Text) where
  -- Where a responder holds the port no order is placed.
  place_order-taken :
      {m : List (Text × Text)} {l : (Text × Text) × (Text × Text)} (h : Host)
      → held h ≡ (some m, l.0, l.1)
      → Fails (some m, l.0, l.1) (place_order a cfg dir domain email h)
  unfolding place_order
  place_order-taken h q =
      bind_then _ _ h (load_or_create_account-Keeps held (λ h f. refl) a _ _ _) q λ account g q.
        bind_then _ _ g (or_config-Keeps held _) q λ order g q.
          bind_then _ _ g (or_config-Keeps held _) q λ tokens g q.
            bind_first (spawn_challenge_server tokens) _ g (
              unfold spawn_challenge_server in bind_80_taken g.port_80 tokens g (ap (λ x. x.0) q) q)

  acquire-taken :
      {m : List (Text × Text)} {l : (Text × Text) × (Text × Text)} (h : Host)
      → held h ≡ (some m, l.0, l.1)
      → Fails (some m, l.0, l.1) (acquire_and_cache a cfg domain email dir h)
  unfolding acquire_and_cache
  acquire-taken h q = bind_first _ _ h (place_order-taken h q)

  renew_if_held :
      {s : Held} (p : Parsers) (due : Bool) (h : Host)
      → Fails s (acquire_and_cache a cfg domain email dir h)
      → held h ≡ s
      → Holds s ((if due then renew a p cfg domain email dir else pure false) h)
  unfolding renew
  renew_if_held p true h f q = Fails-Holds (bind_first _ _ h f)
  renew_if_held p false h f q = holds _ q

  needs_renewal-Keeps :
      (p : Parsers) (now : ℤ) (pem : Text) (days : ℕ) → Keeps held (needs_renewal p now pem days)
  unfolding needs_renewal
  needs_renewal-Keeps p now pem days = search (bind-Keeps, or_config-Keeps, pure-Keeps)

  -- A round of renewal then changes neither the port nor what is served.
  try_renew-taken :
      {m : List (Text × Text)} {l : (Text × Text) × (Text × Text)} (p : Parsers) (now : ℤ)
      (h : Host)
      → held h ≡ (some m, l.0, l.1)
      → Holds (some m, l.0, l.1) (try_renew a p cfg domain email dir now h)
  unfolding try_renew
  try_renew-taken p now h q = bind-Holds _ _ h (read-Keeps held _) q λ pem g q.
      bind-Holds _ _ g (needs_renewal-Keeps p now pem _) q
        λ due g q. renew_if_held p due g (acquire-taken g q) q

Holds-held : {A : Type 0} {s : Held} {x : Result GatewayError A × Host} → Holds s x → held x.1 ≡ s
Holds-held (holds x q) = q

module _ {Creds Account Order : Type 0} (p : Parsers) (cfg : TlsConfig)
    (domain email dir : Text) where
  pub rounds-taken :
      {m : List (Text × Text)} {l : (Text × Text) × (Text × Text)}
      (rs : List (Acme Creds Account Order × ℤ)) (h : Host)
      → held h ≡ (some m, l.0, l.1)
      → held (rounds p cfg domain email dir rs h) ≡ (some m, l.0, l.1)
  unfolding rounds
  rounds-taken [] h q = q
  rounds-taken ((a, now) ∷ rs) h q =
      rounds-taken rs _ (Holds-held (try_renew-taken a cfg domain email dir p now h q))
