-- ===== src/Gateway/Tls/Acme/Kept.antt =====
-- What the calls of crates/hackline-gateway/src/tls.rs leave alone, and how a success of several calls
-- in a row is taken apart.
use hackline.Prelude.{
  Bool, true, false, List, Option, none, some, if◌then◌else◌, ◌≡◌, refl, ap, ◌∙◌,
}
use hackline.Prelude.Text.{Text}
use hackline.Prelude.Outcome.{Result, ok, err, err_ne_ok}
use hackline.Gateway.Error.{GatewayError}
use hackline.Gateway.TlsConfig.{TlsConfig}
use hackline.Gateway.Tls.{Call, ◌>>=◌, pure, or_config, check, read, exists, write, Host}
use hackline.Gateway.Tls.Acme.{
  Acme, load_account, create_account, load_or_create_account, spawn_challenge_server, bind_80,
  abort, place_order, complete_order, acquire_and_cache,
}

after_ok :
    {A B : Type 0} (x : Result GatewayError A × Host) (f : A → Call B) {b : B} {h : Host}
    → ◌≡◌ {A = Result GatewayError B × Host} (◌>>=◌ (λ _. x) f h) (ok b, h)
    → (a : A) × (g : Host) × (x ≡ (ok a, g)) × (f a g ≡ (ok b, h))
unfolding ◌>>=◌
after_ok (ok a, g) f e = (a, g, refl, e)
after_ok (err r, g) f e = err_ne_ok (ap (λ x. x.0) e)

-- A call that succeeds as a whole succeeds at its first step.
pub bind_ok :
    {A B : Type 0} (m : Call A) (f : A → Call B) {h h' : Host} {b : B}
    → (m >>= f) h ≡ (ok b, h')
    → (a : A) × (g : Host) × (m h ≡ (ok a, g)) × (f a g ≡ (ok b, h'))
unfolding ◌>>=◌
bind_ok m f {h = h} e = after_ok (m h) f e

pub bind_at :
    {A B : Type 0} (m : Call A) (f : A → Call B) {h g : Host} {a : A}
    → m h ≡ (ok a, g)
    → (m >>= f) h ≡ f a g
unfolding ◌>>=◌
bind_at m f {h = h} e = ap (λ x. ◌>>=◌ (λ _. x) f h) e

pub bind_err :
    {A B : Type 0} (m : Call A) (f : A → Call B) {h g : Host} {r : GatewayError}
    → m h ≡ (err r, g)
    → (m >>= f) h ≡ (err r, g)
unfolding ◌>>=◌
bind_err m f {h = h} e = ap (λ x. ◌>>=◌ (λ _. x) f h) e

module _ {X : Type 0} (part : Host → X) where
  unfoldable pub Keeps : {A : Type 0} → Call A → Type 0
  Keeps m = (h : Host) → part (m h).1 ≡ part h

  after-Keeps :
      {A B : Type 0} (x : Result GatewayError A × Host) (f : A → Call B) (h : Host)
      → part x.1 ≡ part h
      → ((a : A) → Keeps (f a))
      → part (◌>>=◌ (λ _. x) f h).1 ≡ part h
  unfolding Keeps ◌>>=◌
  after-Keeps (ok a, g) f h e k = k a g ∙ e
  after-Keeps (err r, g) f h e k = e

  pub bind-Keeps :
      {A B : Type 0} (m : Call A) (f : A → Call B)
      → Keeps m
      → ((a : A) → Keeps (f a))
      → Keeps (m >>= f)
  unfolding Keeps ◌>>=◌
  bind-Keeps m f hm hf h = after-Keeps (m h) f h (hm h) hf

  pub or_config-Keeps : {A : Type 0} (o : Option A) → Keeps (or_config o)
  unfolding Keeps
  or_config-Keeps none h = refl
  or_config-Keeps (some a) h = refl

  pub check-Keeps : (b : Bool) → Keeps (check b)
  unfolding Keeps
  check-Keeps true h = refl
  check-Keeps false h = refl

  pub read-Keeps : (path : Text) → Keeps (read path)
  unfolding Keeps read
  read-Keeps path h = or_config-Keeps (h.files path) h

  pub pure-Keeps : {A : Type 0} (x : A) → Keeps (pure x)
  unfolding Keeps
  pure-Keeps x h = refl

  exists-Keeps : (path : Text) → Keeps (exists path)
  unfolding Keeps exists
  exists-Keeps path h = refl

  choose-Keeps :
      {A : Type 0} (b : Bool) (m n : Call A) → Keeps m → Keeps n → Keeps (if b then m else n)
  choose-Keeps true m n hm hn = hm
  choose-Keeps false m n hm hn = hn

  -- A part that does not hold the files.
  module _
      (free : (h : Host) (f : Text → Option Text) → part (record h { files = f }) ≡ part h) where
    pub write-Keeps : (b : Bool) (path bytes : Text) → Keeps (write b path bytes)
    unfolding Keeps write
    write-Keeps true path bytes h = free h _
    write-Keeps false path bytes h = refl

    module _ {Creds Account Order : Type 0} (a : Acme Creds Account Order) where
      load_account-Keeps : (path : Text) → Keeps (load_account a path)
      unfolding load_account
      load_account-Keeps path = search (bind-Keeps, read-Keeps, or_config-Keeps)

      create_account-Keeps : (path url email : Text) → Keeps (create_account a path url email)
      unfolding create_account
      create_account-Keeps path url email =
          search (bind-Keeps, or_config-Keeps, write-Keeps, pure-Keeps)

      pub load_or_create_account-Keeps :
          (path url email : Text) → Keeps (load_or_create_account a path url email)
      unfolding load_or_create_account
      load_or_create_account-Keeps path url email = search (
        bind-Keeps, check-Keeps, exists-Keeps, choose-Keeps, load_account-Keeps,
        create_account-Keeps,
      )

      -- With it, a part that does not hold the responder of port 80.
      module _
          (port : (h : Host) (o : Option (List (Text × Text)))
            → part (record h { port_80 = o }) ≡ part h) where
        bind_80-keeps :
            (o : Option (List (Text × Text))) (tokens : List (Text × Text)) (h : Host)
            → part (bind_80 o tokens h).1 ≡ part h
        unfolding bind_80
        bind_80-keeps none tokens h = port h (some tokens)
        bind_80-keeps (some _) tokens h = refl

        spawn_challenge_server-Keeps :
            (tokens : List (Text × Text)) → Keeps (spawn_challenge_server tokens)
        unfolding Keeps spawn_challenge_server
        spawn_challenge_server-Keeps tokens h = bind_80-keeps h.port_80 tokens h

        abort-Keeps : Keeps abort
        unfolding Keeps abort
        abort-Keeps h = port h none

        pub place_order-Keeps :
            (cfg : TlsConfig) (dir domain email : Text) → Keeps (place_order a cfg dir domain email)
        unfolding place_order
        place_order-Keeps cfg dir domain email = search (
          bind-Keeps, or_config-Keeps, pure-Keeps, load_or_create_account-Keeps,
          spawn_challenge_server-Keeps,
        )

        complete_order-Keeps :
            (order : Order) (tokens : List (Text × Text)) → Keeps (complete_order a order tokens)
        unfolding complete_order
        complete_order-Keeps order tokens =
            search (bind-Keeps, check-Keeps, or_config-Keeps, pure-Keeps, abort-Keeps)

        pub acquire_and_cache-Keeps :
            (cfg : TlsConfig) (domain email dir : Text)
            → Keeps (acquire_and_cache a cfg domain email dir)
        unfolding acquire_and_cache
        acquire_and_cache-Keeps cfg domain email dir =
            search (bind-Keeps, pure-Keeps, write-Keeps, place_order-Keeps, complete_order-Keeps)
