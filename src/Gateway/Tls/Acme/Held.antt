-- ===== src/Gateway/Tls/Acme/Held.antt =====
-- What is left of an order that fails in crates/hackline-gateway/src/tls.rs: the task that answers on
-- port 80 is aborted only after the order's last call, and dropping its handle does not abort it.
use hackline.Prelude.{Bool, true, false, List, Option, none, some, ◌≡◌, refl, sym, ap, ◌∙◌}
use hackline.Prelude.Int.{ℤ}
use hackline.Prelude.Text.{Text}
use hackline.Prelude.Outcome.{Result, ok, err, err_ne_ok, ok_inj}
use hackline.Gateway.Error.{GatewayError}
use hackline.Gateway.TlsConfig.{TlsConfig}
use hackline.Gateway.Tls.{◌>>=◌, ◌>>◌, pure, or_config, check, Host, Parsers}
use hackline.Gateway.Tls.Acme.{
  Acme, respond, bind_80, spawn_challenge_server, abort, place_order, complete_order,
  acquire_and_cache, rounds,
}
use hackline.Gateway.Tls.Acme.Taken.{held, rounds-taken}
use hackline.Gateway.Tls.Acme.Kept.{Keeps, bind_ok, bind_at, bind_err, place_order-Keeps}

module _ {Creds Account Order : Type 0} (a : Acme Creds Account Order) (cfg : TlsConfig)
    (domain email dir : Text) where
  abort_only :
      (b : Bool) (k c : Option Text) {e : GatewayError} {g g' : Host}
      → ◌≡◌ {A = Result GatewayError (Text × Text) × Host}
          ((check b >> (or_config k >>= λ key. or_config c >>= λ chain. abort >> pure (chain, key)))
            g)
          (err e, g')
      → g' ≡ g
  unfolding ◌>>=◌ abort
  abort_only false k c q = sym (ap (λ x. x.1) q)
  abort_only true none c q = sym (ap (λ x. x.1) q)
  abort_only true (some _) none q = sym (ap (λ x. x.1) q)
  abort_only true (some _) (some _) q = err_ne_ok (sym (ap (λ x. x.0) q))

  complete_order-abort :
      (order : Order) (tokens : List (Text × Text)) {e : GatewayError} {g g' : Host}
      → complete_order a order tokens g ≡ (err e, g')
      → g' ≡ g
  unfolding complete_order
  complete_order-abort order tokens q =
      abort_only (a.poll_ready order (respond tokens)) (a.finalize order) (a.poll_certificate order)
        q

  bound_80 :
      (o : Option (List (Text × Text))) (ts : List (Text × Text)) (x : Order) {order : Order}
      {tokens : List (Text × Text)} (h g : Host)
      → ◌>>◌ {B = Order × List (Text × Text)} (bind_80 o ts) (pure (x, ts)) h
        ≡ (ok (order, tokens), g)
      → g.port_80 ≡ some tokens
  unfolding ◌>>=◌ bind_80
  bound_80 none ts x h g q =
      ap (λ y. y.1.port_80) (sym q) ∙ ap (λ y. some y.1) (ok_inj (ap (λ y. y.0) q))
  bound_80 (some _) ts x h g q = err_ne_ok (ap (λ y. y.0) q)

  spawned :
      (ts : List (Text × Text)) (x : Order) {order : Order} {tokens : List (Text × Text)}
      (h g : Host)
      → ◌>>◌ {B = Order × List (Text × Text)} (spawn_challenge_server ts) (pure (x, ts)) h
        ≡ (ok (order, tokens), g)
      → g.port_80 ≡ some tokens
  unfolding ◌>>=◌ spawn_challenge_server
  spawned ts x h g q = bound_80 h.port_80 ts x h g (unfold ◌>>=◌ in q)

  place_order-port :
      {order : Order} {tokens : List (Text × Text)} (h g : Host)
      → place_order a cfg dir domain email h ≡ (ok (order, tokens), g)
      → g.port_80 ≡ some tokens
  unfolding place_order
  place_order-port h g q =
      let (account, g1, _, r1) = bind_ok _ _ q in
      let (order, g2, _, r2) = bind_ok _ _ r1 in
      let (tokens, g3, _, r3) = bind_ok _ _ r2 in spawned tokens order g3 g r3

  place_order-held :
      {order : Order} {tokens : List (Text × Text)} (h g : Host)
      → place_order a cfg dir domain email h ≡ (ok (order, tokens), g)
      → held g ≡ (some tokens, h.rest, h.tunnels)
  unfolding Keeps
  place_order-held h g q =
      let listeners : Host → (Text × Text) × (Text × Text) = λ x. (x.rest, x.tunnels) in
      let kept = place_order-Keeps listeners (λ h f. refl) a (λ h o. refl) cfg dir domain email h in
      let port = place_order-port h g q in
      let same : listeners g ≡ listeners h = ap (λ y. listeners y.1) (sym q) ∙ kept in cc

  -- The acquisition fails where the order's completion fails, in the same state.
  acquire-failed :
      {order : Order} {tokens : List (Text × Text)} {e : GatewayError} (h g g' : Host)
      → place_order a cfg dir domain email h ≡ (ok (order, tokens), g)
      → complete_order a order tokens g ≡ (err e, g')
      → acquire_and_cache a cfg domain email dir h ≡ (err e, g')
  unfolding acquire_and_cache
  acquire-failed h g g' q r = bind_at _ _ q ∙ bind_err _ _ r

  complete_order-held :
      {order : Order} {tokens : List (Text × Text)} {e : GatewayError} (h g g' : Host)
      → place_order a cfg dir domain email h ≡ (ok (order, tokens), g)
      → complete_order a order tokens g ≡ (err e, g')
      → held (acquire_and_cache a cfg domain email dir h).1 ≡ (some tokens, h.rest, h.tunnels)
  complete_order-held h g g' q r =
      ap (λ x. held x.1) (acquire-failed h g g' q r)
      ∙ ap held (complete_order-abort _ _ r)
      ∙ place_order-held h g q

module _ {Creds Account Order : Type 0} (p : Parsers) (cfg : TlsConfig)
    (domain email dir : Text) where
  -- Where an order is placed and one of its last calls fails, its responder holds port 80 from then on,
  -- and no later round of the renewal task changes what the listeners serve, whatever the authority,
  -- the parsers and the clock then answer.
  pub complete_order-rounds :
      (a : Acme Creds Account Order) {order : Order} {tokens : List (Text × Text)}
      {e : GatewayError} (h g g' : Host) (rs : List (Acme Creds Account Order × ℤ))
      → place_order a cfg dir domain email h ≡ (ok (order, tokens), g)
      → complete_order a order tokens g ≡ (err e, g')
      → held (rounds p cfg domain email dir rs (acquire_and_cache a cfg domain email dir h).1)
        ≡ (some tokens, h.rest, h.tunnels)
  complete_order-rounds a h g g' rs q r =
      rounds-taken p cfg domain email dir rs _
        (complete_order-held a cfg domain email dir h g g' q r)
