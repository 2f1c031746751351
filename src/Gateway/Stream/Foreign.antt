-- ===== src/Gateway/Stream/Foreign.antt =====
-- What the live feeds show of a sample that the gateway takes.
use hackline.Prelude.{
  filter_map, filter_map-last, to_list, ne_of_test, ne_test, ℕ, ◌≡◌, ◌≢◌, refl, ap, sym, ◌∙◌, List,
  [], ◌∷◌, ◌++◌, map, Option, none, some, ◌==◌, ==_iff, Bool-cases, ◌⊎◌, inl, inr,
}
use hackline.Prelude.Text.{Text}
use hackline.Prelude.Outcome.{ok}
use hackline.Proto.Zid.{Zid}
use hackline.Proto.Keyexpr.{MsgKind, parse_msg_keyexpr}
use hackline.Proto.Msg.{MsgEnvelope}
use hackline.Gateway.Schema.{Bytes}
use hackline.Gateway.Devices.{get_by_zid}
use hackline.Gateway.Fanin.{Live, MsgEvent, event_msg, log_msg, Gateway, handle_sample}
use hackline.Gateway.Fanin.Routing.{IsOrdered, org_of, handle_sample-isolates}
use hackline.Gateway.Stream.{StreamQuery, event_frame, log_frame}

map-append : {A B : Type 0} (f : A → B) (xs ys : List A) → map f (xs ++ ys) ≡ map f xs ++ map f ys
map-append f [] ys = refl
map-append f (x ∷ xs) ys = ap (λ l. f x ∷ l) (map-append f xs ys)

append-nil : {A : Type 0} (l : List A) → l ++ [] ≡ l
append-nil [] = refl
append-nil (x ∷ l) = ap (λ r. x ∷ r) (append-nil l)

-- A message that a closure drops adds nothing to what it lets through.
unseen :
    {A B : Type 0} (f : Option A → Option B) (bus : List A) (m : A)
    → f (some m) ≡ none
    → filter_map f (map some (bus ++ m ∷ [])) ≡ filter_map f (map some bus)
unseen f bus m dropped =
    ap (filter_map f) (map-append some bus (m ∷ []))
    ∙ filter_map-last f (map some bus) (some m)
    ∙ ap (λ o. filter_map f (map some bus) ++ to_list o) dropped
    ∙ append-nil (filter_map f (map some bus))

module _ {Uuid Value Frame : Type 0} (from_slice : Bytes → Option (MsgEnvelope Uuid Value))
    (to_vec : Value → Option Bytes) (json : Live Value → Option Frame)
    (log_json : Text → Live Value → Option Frame) (caller_org : ℕ) (q : StreamQuery) where
  -- The frames of the two feeds, of a subscriber that missed nothing.
  abbrev pub events_fed : List (MsgEvent Value) → List Frame
  events_fed bus = filter_map (event_frame json caller_org q) (map some bus)

  abbrev pub logs_fed : List (MsgEvent Value) → List Frame
  logs_fed bus = filter_map (log_frame log_json caller_org q) (map some bus)

  event_frame-foreign :
      (m : MsgEvent Value) → org_of m ≢ caller_org → event_frame json caller_org q (some m) ≡ none
  unfolding event_frame
  event_frame-foreign (event_msg org_id row) ne = rw (ne_test org_id caller_org ne)
  event_frame-foreign (log_msg org_id level row) ne = refl

  log_frame-foreign :
      (m : MsgEvent Value) → org_of m ≢ caller_org → log_frame log_json caller_org q (some m) ≡ none
  unfolding log_frame
  log_frame-foreign (event_msg org_id row) ne = refl
  log_frame-foreign (log_msg org_id level row) ne = rw (ne_test org_id caller_org ne)

  -- Where rowids fall along the event and the log table, a sample that is taken comes from a
  -- registered device of some organisation, and a subscriber of another organisation, whatever its
  -- filters, is sent no frame for it on either feed.
  pub handle_sample-foreign :
      (g g' : Gateway Value) (kind : MsgKind) (ke : Text) (payload : Bytes)
      → IsOrdered g.db
      → handle_sample from_slice to_vec g kind ke payload ≡ ok g'
      → (zid : Zid) × (topic : Text) × (device_id : ℕ) × (org_id : ℕ) × (slug : Text)
        × (parse_msg_keyexpr ke ≡ some (slug, zid, kind, topic))
        × (get_by_zid g.db zid.as_str ≡ some (device_id, org_id))
        × ((org_id ≡ caller_org)
            ⊎ ((events_fed g'.bus ≡ events_fed g.bus) × (logs_fed g'.bus ≡ logs_fed g.bus)))
  handle_sample-foreign g g' kind ke payload ordered taken =
      let (
        zid, topic, device_id, org_id, owner, msg, parsed, known, owned, bus, of_org, of_device,
        rest,
      ) =
        handle_sample-isolates from_slice to_vec g g' kind ke payload 0 ordered taken in
      (
        zid,
        topic,
        device_id,
        org_id,
        owner.slug,
        parsed,
        known,
        elim (Bool-cases (org_id == caller_org)) [
          | inl mine ↦ inl ((==_iff org_id caller_org).0 mine)
          | inr other ↦
              let ne = λ (e : org_of msg ≡ caller_org).
                ne_of_test org_id caller_org other (sym of_org ∙ e) in
              inr (
                ap events_fed bus
                    ∙ unseen (event_frame json caller_org q) g.bus msg (event_frame-foreign msg ne),
                ap logs_fed bus
                    ∙ unseen (log_frame log_json caller_org q) g.bus msg (log_frame-foreign msg ne),
              )
        ],
      )
