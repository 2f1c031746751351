-- ===== src/Core/Bridge/Paired.antt =====
-- The handshake as a whole: what each end does when the reply of the one is the answer to the other.
use hackline.Prelude.{
  ℕ, ◌≡◌, refl, sym, ap, ◌∙◌, true, false, List, [], ◌∷◌, ◌++◌, Option, none, some, Bool-cases, ◌⊎◌,
  inl, inr, if◌then◌else◌,
}
use hackline.Prelude.Text.{Text, lit, text_eq, text_eq_iff}
use hackline.Prelude.Outcome.{Result, ok, err, ok_inj, err_ne_ok, Result-cases}
use hackline.Proto.Zid.{Zid}
use hackline.Proto.Uuid.{Uuids}
use hackline.Proto.Keyexpr.{connect, stream_gw, stream_dev}
use hackline.Core.Pipe.{Bytes}
use hackline.Core.Bridge.{
  BridgeError, rejected, BridgeBytes, ConnectRequest, ConnectAck, Action, get, reply,
  declare_publisher, declare_subscriber, put, io, Answer, disconnected, replied, Session,
  run_bridge, then_done, accept_request, accept_bridge, on_answer, initiate_bridge_io_with_id,
}

then_done_lem :
    {A : Type 0} (u : Uuids) (before : List (Action u)) (a : A)
    (x : List (Action u) × Result BridgeError BridgeBytes)
    → (then_done u before a x).0 ≡ before ++ x.0
then_done_lem u before a (actions, ok _) = refl
then_done_lem u before a (actions, err _) = refl

abbrev second : {A B : Type 0} → A × B → B
second x = x.1

module _ (u : Uuids) (request_to_vec : ConnectRequest u → Bytes)
    (request_from_slice : Bytes → Option (ConnectRequest u)) (ack_to_vec : ConnectAck u → Bytes)
    (ack_from_slice : Bytes → Option (ConnectAck u))
    (reads_request : (r : ConnectRequest u) → request_from_slice (request_to_vec r) ≡ some r)
    (reads_ack : (a : ConnectAck u) → ack_from_slice (ack_to_vec a) ≡ some a)
    (device gateway : Session) (dial : ℕ → Result Text (Unit {0})) (org : Text) (zid : Zid)
    (port : ℕ) (request_id : u.Uuid) (peer : Option Text) where
  open u use {Uuid}

  abbrev pub request : ConnectRequest u
  request = record { request_id = request_id; peer = peer }

  -- The first reply under the key of the query, if the device's session took it.
  unfoldable pub answer_of : List (Action u) → Answer
  answer_of [] = disconnected
  answer_of (reply key ack ∷ actions) =
      let rest = answer_of actions in
      if text_eq key (connect org zid port)
      then (if device.takes_reply then replied (ack_to_vec ack) else disconnected)
      else rest
  answer_of (get _ _ ∷ actions) = answer_of actions
  answer_of (declare_publisher _ ∷ actions) = answer_of actions
  answer_of (declare_subscriber _ ∷ actions) = answer_of actions
  answer_of (put _ _ ∷ actions) = answer_of actions

  -- The device's end, on the query of the gateway.
  abbrev pub accepted : List (Action u) × Result BridgeError (Uuid × Option Text)
  accepted =
      accept_bridge u request_from_slice device dial org zid port (some (request_to_vec request))

  -- The gateway's end, on the reply of the device.
  abbrev pub initiated : List (Action u) × Result BridgeError (Uuid × BridgeBytes)
  initiated =
      initiate_bridge_io_with_id u ack_from_slice gateway request_id org zid port peer
        (answer_of accepted.0)

  abbrev pub accepts : ConnectAck u
  accepts = record { request_id = request_id; ok = true; message = none }

  abbrev pub refuses : Text → ConnectAck u
  refuses e = record {
    request_id = request_id;
    ok = false;
    message = some (lit "tcp connect failed: " ++ e);
  }

  same_key : text_eq (connect org zid port) (connect org zid port) ≡ true
  same_key = (text_eq_iff (connect org zid port) (connect org zid port)).1 refl

  answer_first :
      (ack : ConnectAck u) (rest : List (Action u))
      → device.takes_reply ≡ true
      → answer_of (reply (connect org zid port) ack ∷ rest) ≡ replied (ack_to_vec ack)
  unfolding answer_of
  answer_first ack rest taken = rw (same_key, taken) refl

  answer_lost :
      (ack : ConnectAck u) (rest : List (Action u))
      → device.takes_reply ≡ false
      → answer_of (reply (connect org zid port) ack ∷ rest) ≡ disconnected
  unfolding answer_of
  answer_lost ack rest lost = rw (same_key, lost) refl

  -- The device reads the request that the gateway made.
  accepted_lem :
      (dialled : Result Text (Unit {0}))
      → dial port ≡ dialled
      → accepted ≡ accept_request u device dialled org zid port request
  unfolding accept_bridge
  accepted_lem dialled e = rw (reads_request request, accept_bridge, e) refl

  initiate_with : Answer → List (Action u) × Result BridgeError (Uuid × BridgeBytes)
  unfolding initiate_bridge_io_with_id
  initiate_with answer =
      initiate_bridge_io_with_id u ack_from_slice gateway request_id org zid port peer answer

  on_refusal :
      (e : Text)
      → gateway.takes_get ≡ true
      → initiate_with (replied (ack_to_vec (refuses e))) ≡ (
        get (connect org zid port) request ∷ [],
        err (rejected (lit "tcp connect failed: " ++ e)),
      )
  unfolding initiate_with initiate_bridge_io_with_id on_answer
  on_refusal e taken = rw (taken, reads_ack (refuses e), on_answer) refl

  -- Where the device's local socket refuses, the device's end only replies so, the gateway's end
  -- fails with the device's message, and neither end opens a stream.
  pub dial-refused :
      (e : Text)
      → dial port ≡ err e
      → device.takes_reply ≡ true
      → gateway.takes_get ≡ true
      → (accepted ≡ (reply (connect org zid port) (refuses e) ∷ [], err (io e)))
        × (initiated ≡ (
          get (connect org zid port) request ∷ [],
          err (rejected (lit "tcp connect failed: " ++ e)),
        ))
  unfolding accept_request initiate_with
  dial-refused e refused takes_reply takes_get =
      let did = accepted_lem (err e) refused in
      (
        did,
        ap
              (λ (a : List (Action u) × Result BridgeError (Uuid × Option Text)).
                initiate_with (answer_of a.0))
              did
            ∙ ap initiate_with (answer_first (refuses e) [] takes_reply)
            ∙ on_refusal e takes_get,
      )

  no_bridge :
      (answer : Answer) (r : Uuid) (b : BridgeBytes)
      → (answer ≡ disconnected) ⊎ ((e : Text) × (answer ≡ replied (ack_to_vec (refuses e))))
      → (initiate_with answer).1 ≡ ok (r, b)
      → ⊥
  unfolding initiate_with initiate_bridge_io_with_id on_answer
  no_bridge answer r b (inl e) h = elim (Bool-cases gateway.takes_get) [
    | inl taken ↦ err_ne_ok (rw (taken, e, on_answer) at h)
    | inr lost ↦ err_ne_ok (rw lost at h)
  ]
  no_bridge answer r b (inr (m, e)) h = elim (Bool-cases gateway.takes_get) [
    | inl taken ↦ err_ne_ok (rw (taken, e, reads_ack (refuses m), on_answer) at h)
    | inr lost ↦ err_ne_ok (rw lost at h)
  ]

  -- The gateway's end on an ack: where it bridges, it has asked and has opened its two streams.
  bridged_on :
      (r : Uuid) (b : BridgeBytes)
      → (initiate_with (replied (ack_to_vec accepts))).1 ≡ ok (r, b)
      → (r ≡ request_id)
        × (b ≡ gateway.pumped)
        × ((initiate_with (replied (ack_to_vec accepts))).0
            ≡ get (connect org zid port) request
              ∷ declare_publisher (stream_gw u org zid request_id)
              ∷ declare_subscriber (stream_dev u org zid request_id)
              ∷ [])
  unfolding initiate_with initiate_bridge_io_with_id on_answer run_bridge
  bridged_on r b h = elim (Bool-cases gateway.takes_get) [
    | inr lost ↦ err_ne_ok (rw lost at h)
    | inl taken ↦
        let h0 = rw (taken, reads_ack accepts, on_answer) at h in
        elim (Bool-cases gateway.takes_publisher) [
          | inr lost ↦ err_ne_ok (rw (lost, run_bridge) at h0)
          | inl pubs ↦ elim (Bool-cases gateway.takes_subscriber) [
            | inr lost ↦ err_ne_ok (rw (pubs, run_bridge, lost) at h0)
            | inl subs ↦
                let made = ok_inj (rw (pubs, run_bridge, subs) at h0) in
                (
                  sym (ap (λ (x : Uuid × BridgeBytes). x.0) made),
                  sym (ap (λ (x : Uuid × BridgeBytes). x.1) made),
                  rw (taken, reads_ack accepts, on_answer, pubs, run_bridge) refl,
                )
          ]
        ]
  ]

  acks_first :
      device.takes_reply ≡ true
      → (accept_request u device (ok tt) org zid port request).0
        ≡ reply (connect org zid port) accepts
          ∷ (run_bridge u device
              (stream_gw u org zid request_id)
              (stream_dev u org zid request_id)).0
  unfolding accept_request
  acks_first taken = rw taken (
      then_done_lem u (reply (connect org zid port) accepts ∷ []) (request_id, peer)
        (run_bridge u device (stream_gw u org zid request_id) (stream_dev u org zid request_id)))

  -- No bridge, unless the device acknowledges.
  refusal_answer :
      (m : Text)
      → (answer_of (accept_request u device (err m) org zid port request).0 ≡ disconnected)
        ⊎ ((e : Text) × (answer_of (accept_request u device (err m) org zid port request).0
              ≡ replied (ack_to_vec (refuses e))))
  unfolding accept_request
  refusal_answer m = elim (Bool-cases device.takes_reply) [
    | inl taken ↦ inr (m, answer_first (refuses m) [] taken)
    | inr lost ↦ inl (answer_lost (refuses m) [] lost)
  ]

  acks_only :
      device.takes_reply ≡ false
      → (accept_request u device (ok tt) org zid port request).0
        ≡ reply (connect org zid port) accepts ∷ []
  unfolding accept_request
  acks_only lost = rw lost refl

  unacked :
      device.takes_reply ≡ false
      → answer_of (accept_request u device (ok tt) org zid port request).0 ≡ disconnected
  unacked lost = ap answer_of (acks_only lost) ∙ answer_lost accepts [] lost

  to_answer :
      (dialled : Result Text (Unit {0}))
      → dial port ≡ dialled
      → initiated
        ≡ initiate_with (answer_of (accept_request u device dialled org zid port request).0)
  unfolding initiate_with
  to_answer dialled e =
      ap
        (λ (a : List (Action u) × Result BridgeError (Uuid × Option Text)).
          initiate_with (answer_of a.0))
        (accepted_lem dialled e)

  -- Where the gateway's end bridges, under whatever either session takes and the device's local socket
  -- gives: the identifier is that of its request; the local socket was connected and the reply taken;
  -- the gateway asked, opened the stream to the agent for publishing and the stream from the agent
  -- for receiving; and the device replied first, and then went on to bridge with the same two streams
  -- the other way round.
  pub bridged-Paired :
      (r : Uuid) (b : BridgeBytes)
      → initiated.1 ≡ ok (r, b)
      → (r ≡ request_id)
        × (b ≡ gateway.pumped)
        × (dial port ≡ ok tt)
        × (device.takes_reply ≡ true)
        × (initiated.0
            ≡ get (connect org zid port) request
              ∷ declare_publisher (stream_gw u org zid request_id)
              ∷ declare_subscriber (stream_dev u org zid request_id)
              ∷ [])
        × (accepted.0
            ≡ reply (connect org zid port) accepts
              ∷ (run_bridge u device
                  (stream_gw u org zid request_id)
                  (stream_dev u org zid request_id)).0)
  bridged-Paired r b h = elim (Result-cases (dial port)) [
    | inl (m, refused) ↦
        absurd
          (no_bridge _ r b (refusal_answer m) (sym (ap second (to_answer (err m) refused)) ∙ h))
    | inr (_, dialled) ↦ elim (Bool-cases device.takes_reply) [
      | inr lost ↦
          absurd
            (no_bridge _ r b (inl (unacked lost)) (sym (ap second (to_answer (ok tt) dialled)) ∙ h))
      | inl taken ↦
          let first = acks_first taken in
          let heard =
            to_answer (ok tt) dialled
            ∙ ap initiate_with (ap answer_of first ∙ answer_first accepts _ taken) in
          let (same, counted, asked) = bridged_on r b (sym (ap second heard) ∙ h) in
          (
            same,
            counted,
            dialled,
            taken,
            ap (λ (x : List (Action u) × Result BridgeError (Uuid × BridgeBytes)). x.0) heard
                ∙ asked,
            ap (λ (x : List (Action u) × Result BridgeError (Uuid × Option Text)). x.0)
                  (accepted_lem (ok tt) dialled)
                ∙ first,
          )
    ]
  ]
