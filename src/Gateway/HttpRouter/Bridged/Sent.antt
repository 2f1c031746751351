-- ===== src/Gateway/HttpRouter/Bridged/Sent.antt =====
-- What an HTTP connection that is served was bridged to.
use hackline.Prelude.{
  ℕ, ◌+◌, ◌≡◌, refl, ap, sym, ◌∙◌, Bool, List, ◌∷◌, Option, none, some, Bool-cases, Option-cases,
  inl, inr,
}
use hackline.Prelude.Int.{ℤ}
use hackline.Prelude.Text.{Text, lit}
use hackline.Prelude.Outcome.{Result, ok, err, ok_inj, err_ne_ok, Result-cases}
use hackline.Proto.Zid.{Zid}
use hackline.Proto.Uuid.{Uuids}
use hackline.Proto.Keyexpr.{connect, stream_gw, stream_dev}
use hackline.Core.Bridge
use hackline.Core.Bridge.{
  BridgeBytes, ConnectAck, Action, get, declare_publisher, declare_subscriber, Answer, timed_out,
  disconnected, refused, replied,
}
use hackline.Gateway.Error.{GatewayError}
use hackline.Gateway.Schema.{Bytes}
use hackline.Gateway.HttpRouter.Route.{Route, select_route}
use hackline.Gateway.HttpRouter.Route.Served.{IsRouted, IsRouted-stored, select_route-IsRouted}
use hackline.Gateway.HttpRouter.Bridged.{
  first_sample, refuses_prefix, counted, forget, stream_with_prefix, on_answer, bridge_with_prefix,
  serve, handle_connection,
}
use hackline.Gateway.Metrics.{Outcome}
use hackline.Gateway.Metrics.Values.{sessions}
use hackline.Gateway.Session.{Books, open_session, close_session}
use hackline.Gateway.Session.Recorded.{opened_row, open_session-opened, closing-counted}
use Prim.Native.Nat.{◌%◌}

module _ (u : Uuids) (from_slice : Bytes → Option (ConnectAck u)) (s : Bridge.Session)
    (takes_prefix : Bool) where
  open u use {Uuid}

  -- The actions of a bridge that works.
  abbrev pub bridging : Text → Zid → ℕ → Bytes → Uuid → List (Action u)
  bridging org zid port prefix request_id =
      get (connect org zid port) (record { request_id = request_id; peer = none })
      ∷ declare_publisher (stream_gw u org zid request_id)
      ∷ declare_subscriber (stream_dev u org zid request_id)
      ∷ first_sample (stream_gw u org zid request_id) prefix

  streamed :
      (to from : Text) (prefix : Bytes) (b : BridgeBytes)
      → (stream_with_prefix u from_slice s takes_prefix to from prefix).1 ≡ ok b
      → ((stream_with_prefix u from_slice s takes_prefix to from prefix).0
          ≡ declare_publisher to ∷ declare_subscriber from ∷ first_sample to prefix)
        × (b ≡ counted prefix s.pumped)
  unfolding stream_with_prefix
  streamed to from prefix b h = elim (Bool-cases s.takes_publisher) [
    | inr lost ↦ err_ne_ok (rw lost at h)
    | inl pubs ↦
        let h0 = rw pubs at h in
        elim (Bool-cases s.takes_subscriber) [
          | inr lost ↦ err_ne_ok (rw lost at h0)
          | inl subs ↦
              let h1 = rw subs at h0 in
              elim (Bool-cases (refuses_prefix takes_prefix prefix)) [
                | inl refuses ↦ err_ne_ok (rw refuses at h1)
                | inr taken ↦ (rw (pubs, subs) refl, sym (ok_inj (rw taken at h1)))
              ]
        ]
  ]

  answered :
      (org : Text) (zid : Zid) (prefix : Bytes) (request_id : Uuid) (answer : Answer)
      (b : BridgeBytes)
      → (on_answer u from_slice s takes_prefix org zid prefix request_id answer).1 ≡ ok b
      → ((on_answer u from_slice s takes_prefix org zid prefix request_id answer).0
          ≡ declare_publisher (stream_gw u org zid request_id)
            ∷ declare_subscriber (stream_dev u org zid request_id)
            ∷ first_sample (stream_gw u org zid request_id) prefix)
        × (b ≡ counted prefix s.pumped)
  unfolding on_answer
  answered org zid prefix request_id timed_out b h = err_ne_ok h
  answered org zid prefix request_id disconnected b h = err_ne_ok h
  answered org zid prefix request_id (refused e) b h = err_ne_ok h
  answered org zid prefix request_id (replied bytes) b h = elim (Option-cases (from_slice bytes)) [
    | inl unread ↦ err_ne_ok (rw (unread, on_answer) at h)
    | inr (ack, read) ↦
        let h0 = rw (read, on_answer) at h in
        elim (Bool-cases ack.ok) [
          | inr denied ↦ err_ne_ok (rw denied at h0)
          | inl yes_ok ↦
              rw (read, on_answer, yes_ok)
                (streamed (stream_gw u org zid request_id) (stream_dev u org zid request_id) prefix
                  b (rw yes_ok at h0))
        ]
  ]

  bridged :
      (org : Text) (zid : Zid) (port : ℕ) (prefix : Bytes) (request_id : Uuid) (answer : Answer)
      (b : BridgeBytes)
      → (bridge_with_prefix u from_slice s takes_prefix org zid port prefix request_id answer).1
        ≡ ok b
      → ((bridge_with_prefix u from_slice s takes_prefix org zid port prefix request_id answer).0
          ≡ bridging org zid port prefix request_id)
        × (b ≡ counted prefix s.pumped)
  unfolding bridge_with_prefix
  bridged org zid port prefix request_id answer b h = elim (Bool-cases s.takes_get) [
    | inr lost ↦ err_ne_ok (rw lost at h)
    | inl taken ↦
        let (actions, bytes) = answered org zid prefix request_id answer b (rw taken at h) in
        (
          rw taken (
              ap
                (λ l.
                  get (connect org zid port) (record { request_id = request_id; peer = none }) ∷ l)
                actions),
          bytes,
        )
  ]

  forget_ok :
      (r : Result GatewayError BridgeBytes) → forget r ≡ ok tt → (b : BridgeBytes) × (r ≡ ok b)
  forget_ok (ok b) h = (b, refl)
  forget_ok (err e) h = err_ne_ok h

  abbrev Handled : Type 0
  Handled = List (Action u) × Result GatewayError (Unit {0}) × Books

  module _ (meanwhile : Books → Books) (b : Books) (reads : List (Result GatewayError Bytes))
      (peer : Text) (request_id : Uuid) (ts_open : ℤ) (answer : Answer) (ts_close : ℤ) where
    -- When the bridge of a route is done.
    abbrev pub at_end : Route → Books
    at_end route =
        meanwhile
          (open_session b (lit "http") route.tunnel_id route.device_id (u.to_string request_id)
            (some peer) ts_open).1

    -- A connection that is served in full came to the tunnel of the host in the bytes read, and was
    -- bridged to it: the device was asked under the organisation that owns it for the tunnel's port,
    -- modulo 2^16, the streams of the request's identifier were opened, and the bytes read were the
    -- first that were sent. The audit row that was opened for it is the newest and carries that
    -- tunnel, device, identifier and peer. At its end one session more is counted as good, modulo
    -- 2^64.
    pub handle_connection-IsRouted :
        (actions : List (Action u)) (books : Books)
        → handle_connection u from_slice s takes_prefix meanwhile b reads peer request_id ts_open
            answer ts_close
          ≡ (actions, ok tt, books)
        → (route : Route) × IsRouted b.db reads route
          × (actions ≡ bridging route.org_slug route.zid route.port route.prefix request_id)
          × ((open_session b
                (lit "http")
                route.tunnel_id
                route.device_id
                (u.to_string request_id)
                (some peer)
                ts_open).1.db.audit
              ≡ opened_row b.db route.tunnel_id route.device_id
                  (u.to_string request_id)
                  (some peer)
                  ts_open
                ∷ b.db.audit)
          × (sessions books.metrics (lit "http") Outcome.ok
              ≡ (sessions (at_end route).metrics (lit "http") Outcome.ok + 1)
                % 18446744073709551616)
    unfolding handle_connection serve
    handle_connection-IsRouted actions books h = elim (Result-cases (select_route b.db reads)) [
      | inl (e, bad) ↦ err_ne_ok (ap (λ (x : Handled). x.1) (rw (bad, handle_connection) at h))
      | inr (route, found) ↦
          let h0 = rw (found, handle_connection) at h in
          let (bytes, worked) =
            forget_ok
              (bridge_with_prefix u from_slice s takes_prefix route.org_slug route.zid route.port
                route.prefix request_id answer).1
              (ap (λ (x : Handled). x.1) h0) in
          let (did, _) =
            bridged route.org_slug route.zid route.port route.prefix request_id answer bytes
              worked in
          let audit_id =
            (open_session b (lit "http") route.tunnel_id route.device_id (u.to_string request_id)
              (some peer) ts_open).0 in
          (
            route,
            select_route-IsRouted b.db reads route found,
            sym (ap (λ (x : Handled). x.0) h0) ∙ did,
            ap (λ (x : Option ℕ × Books). x.1.db.audit)
                (open_session-opened b (lit "http") route.tunnel_id route.device_id
                  (u.to_string request_id) (some peer) ts_open
                  (IsRouted-stored b.db reads route
                    (select_route-IsRouted b.db reads route found))),
            sym (ap (λ (x : Handled). sessions x.2.metrics (lit "http") Outcome.ok) h0)
                ∙ ap
                    (λ r.
                      sessions
                        (close_session (at_end route) (lit "http") audit_id r ts_close).metrics
                        (lit "http") Outcome.ok)
                    worked
                ∙ (closing-counted {E = GatewayError} (at_end route) (lit "http") audit_id
                    (ok bytes) ts_close).1,
          )
    ]
