-- ===== src/Gateway/Delivery/Addressed.antt =====
-- What the pusher of crates/hackline-gateway/src/cmd_delivery.rs puts on the network for a row.
use hackline.Prelude.{
  ◌≡◌, refl, ap, sym, ◌∙◌, ◌↔◌, [], Option, some, find, ◌==◌, Option-cases, Bool, inl, inr,
  some_inj, none_ne_some,
}
use hackline.Prelude.Int.{ℤ}
use hackline.Prelude.Text.{Text}
use hackline.Prelude.Outcome.{ok, Result-cases}
use hackline.Proto.Zid
use hackline.Proto.Zid.{Zid}
use hackline.Proto.Uuid.{Uuids}
use hackline.Proto.Keyexpr.{msg_cmd}
use hackline.Gateway.Schema.{Bytes, Org, Device, CmdRow, Db}
use hackline.Gateway.Devices.{get_with_org_slug}
use hackline.Gateway.Delivery.{CmdEnvelope, message}

module _ (u : Uuids) {Value : Type 0} (value : Bytes → Value) where
  open u use {Uuid}

  -- The command of a row, under an identifier.
  abbrev pub command_of : CmdRow → Uuid → CmdEnvelope Uuid Value
  command_of row id = record {
    cmd_id = id;
    topic = row.topic;
    enqueued_at = row.enqueued_at;
    expires_at = row.expires_at;
    envelope = record {
      id = id;
      ts = row.enqueued_at;
      content_type = row.content_type;
      headers = [];
      payload = value row.payload;
    };
  }

  -- The bytes are the row's command, under the row's identifier, and the key is the command key of
  -- the row's topic for the device that the row is for, in the organisation that owns the device.
  abbrev pub Addresses :
      (CmdEnvelope Uuid Value → Option Bytes) → Db → CmdRow → Text → Bytes → Type 0
  Addresses to_vec d row ke bytes =
      (device : Device) × (org : Org) × (zid : Zid) × (id : Uuid) × (find
          (λ v. v.id == row.device_id) d.devices
        ≡ some device)
      × (find (λ o. o.id == device.org_id) d.orgs ≡ some org)
      × (Zid.new device.zid ≡ ok zid)
      × (u.parse_str row.cmd_id ≡ some id)
      × (to_vec (command_of row id) ≡ some bytes)
      × (ke ≡ msg_cmd org.slug zid row.topic)

  module _ (to_vec : CmdEnvelope Uuid Value → Option Bytes) (put : Text → Bytes → Bool)
      (marked_at : CmdRow → ℤ) (d : Db) (row : CmdRow) (ke : Text) (bytes : Bytes) where
    addressed :
        message u value to_vec put marked_at d row ≡ some (ke, bytes)
        → Addresses to_vec d row ke bytes
    unfolding message get_with_org_slug
    addressed h = elim (Option-cases (find (λ v. v.id == row.device_id) d.devices)) [
      | inl e ↦ none_ne_some (rw e at h)
      | inr (device, e0) ↦
          let h0 = rw e0 at h in
          elim (Option-cases (find (λ o. o.id == device.org_id) d.orgs)) [
            | inl e ↦ none_ne_some (rw e at h0)
            | inr (org, e1) ↦
                let h1 = rw e1 at h0 in
                elim (Result-cases (Zid.new device.zid)) [
                  | inl (x, e) ↦ none_ne_some (rw e at h1)
                  | inr (zid, e2) ↦
                      let h2 = rw e2 at h1 in
                      elim (Option-cases (u.parse_str row.cmd_id)) [
                        | inl e ↦ none_ne_some (rw e at h2)
                        | inr (id, e3) ↦
                            let h3 = rw e3 at h2 in
                            elim (Option-cases (to_vec (command_of row id))) [
                              | inl e ↦ none_ne_some (rw e at h3)
                              | inr (written, e4) ↦
                                  let same = some_inj (rw e4 at h3) in
                                  (
                                    device,
                                    org,
                                    zid,
                                    id,
                                    e0,
                                    e1,
                                    e2,
                                    e3,
                                    e4 ∙ ap (λ (y : Text × Bytes). some y.1) same,
                                    sym (ap (λ (y : Text × Bytes). y.0) same),
                                  )
                            ]
                      ]
                ]
          ]
    ]

    -- What is put for a row is what is addressed by it, and nothing is put just if nothing is.
    pub message_iff :
        (message u value to_vec put marked_at d row ≡ some (ke, bytes))
        ↔ Addresses to_vec d row ke bytes
    unfolding message get_with_org_slug
    message_iff = (
      addressed,
      λ (device, org, zid, id, e0, e1, e2, e3, e4, e5). rw (e0, e1, e2, e3, e4, sym e5) refl,
    )
