-- ===== src/Gateway/Delivery/Due.antt =====
-- Which rows one pass of the pusher of crates/hackline-gateway/src/cmd_delivery.rs takes up.
use hackline.Prelude.{
  ℕ, ◌<◌, ◌≤◌, ◌≡◌, refl, ap, ◌∙◌, ◌↔◌, Bool, true, ◌&&◌, List, [], ◌∷◌, Option, none, some,
  filterb, All, arith, Bool-cases, ◌⊎◌, inl, inr,
}
use mathlib.Core.List.{reverse_aux}
use hackline.Prelude.Int.{ℤ, ltb_ℤ}
use hackline.Gateway.Sql.Laws.{Falling, Falling-filterb, All-imp}
use hackline.Gateway.Schema.{CmdRow, Db}
use hackline.Gateway.Outbox.{is_none, is_due, list_pending}
use hackline.Gateway.Outbox.Invariant.{IsSound}

-- A row is one of a list.
abbrev pub IsAmong : CmdRow → List CmdRow → Type 0
IsAmong r [] = ⊥
IsAmong r (x ∷ rows) = (r ≡ x) ⊎ IsAmong r rows

abbrev pub IsRising : List CmdRow → Type 0
IsRising [] = Unit {0}
IsRising (r ∷ rows) = All (λ (q : CmdRow). r.id < q.id) rows × IsRising rows

-- The rows of the outbox that are neither delivered nor expired, each once and the oldest first.
abbrev pub AreDue : Db → ℤ → List CmdRow → Type 0
AreDue d now rows =
    IsRising rows
    × ((r : CmdRow)
        → IsAmong r rows
          ↔ (IsAmong r d.cmd_outbox × (r.delivered_at ≡ none) × (ltb_ℤ now r.expires_at ≡ true)))

reverse_aux-IsAmong :
    (r : CmdRow) (rows after : List CmdRow)
    → IsAmong r (reverse_aux rows after) ↔ (IsAmong r rows ⊎ IsAmong r after)
reverse_aux-IsAmong r [] after = (λ h. inr h, λ h. elim h [ inl i ↦ absurd i | inr i ↦ i ])
reverse_aux-IsAmong r (x ∷ rows) after =
    let (there, back) = reverse_aux-IsAmong r rows (x ∷ after) in
    (
      λ h. elim (there h) [
        | inl among ↦ inl (inr among)
        | inr (inl same) ↦ inl (inl same)
        | inr (inr among) ↦ inr among
      ],
      λ h. elim h [
        | inl (inl same) ↦ back (inr (inl same))
        | inl (inr among) ↦ back (inl among)
        | inr among ↦ back (inr (inr among))
      ],
    )

reverse_aux-IsRising :
    (n : ℕ) (rows after : List CmdRow)
    → Falling (λ (r : CmdRow). r.id) n rows
    → All (λ (q : CmdRow). n ≤ q.id) after
    → IsRising after
    → IsRising (reverse_aux rows after)
reverse_aux-IsRising n [] after falls above rises = rises
reverse_aux-IsRising n (r ∷ rows) after (below, falls) above rises =
    reverse_aux-IsRising r.id rows (r ∷ after) falls
      (omega arith, All-imp (λ (q : CmdRow). r.id ≤ q.id) after (λ q h. omega arith) above)
      (All-imp (λ (q : CmdRow). r.id < q.id) after (λ q h. omega arith) above, rises)

filterb-IsAmong :
    (p : CmdRow → Bool) (r : CmdRow) (rows : List CmdRow)
    → IsAmong r (filterb p rows) ↔ (IsAmong r rows × (p r ≡ true))
filterb-IsAmong p r [] = (λ h. absurd h, λ h. absurd h.0)
filterb-IsAmong p r (x ∷ rows) =
    let (there, back) = filterb-IsAmong p r rows in
    elim (Bool-cases (p x)) [
      | inl taken ↦ rw taken (
        λ h. elim h [
          | inl same ↦ (inl same, ap p same ∙ taken)
          | inr among ↦ let (a, b) = there among in (inr a, b)
        ],
        λ (either, h). elim either [ inl same ↦ inl same | inr among ↦ inr (back (among, h)) ],
      )
      | inr left ↦ rw left (
        λ h. let (a, b) = there h in (inr a, b),
        λ (either, h). elim either [
          | inl same ↦ let no = ap p same ∙ left in absurd cc
          | inr among ↦ back (among, h)
        ],
      )
    ]

is_due_iff :
    (now : ℤ) (r : CmdRow)
    → (is_due now r ≡ true) ↔ ((r.delivered_at ≡ none) × (ltb_ℤ now r.expires_at ≡ true))
is_due_iff now r = open_iff r.delivered_at (ltb_ℤ now r.expires_at)
  where
    open_iff : (o : Option ℤ) (b : Bool) → ((is_none o && b) ≡ true) ↔ ((o ≡ none) × (b ≡ true))
    open_iff none b = (λ h. (refl, h), λ h. h.1)
    open_iff (some t) b = (λ h. absurd cc, λ h. absurd cc)

pub list_pending-AreDue : (d : Db) (now : ℤ) → IsSound d → AreDue d now (list_pending d now)
unfolding list_pending
list_pending-AreDue d now sound = (
  reverse_aux-IsRising _ (filterb (is_due now) d.cmd_outbox) []
      (Falling-filterb (λ (r : CmdRow). r.id) _ (is_due now) d.cmd_outbox sound.falling) tt tt,
  λ r.
      let (a, b) = reverse_aux-IsAmong r (filterb (is_due now) d.cmd_outbox) [] in
      let (c, e) = filterb-IsAmong (is_due now) r d.cmd_outbox in
      let (f, g) = is_due_iff now r in
      (
        λ h. elim (a h) [
          | inl among ↦ let (x, y) = c among in let (y0, y1) = f y in (x, y0, y1)
          | inr nowhere ↦ absurd nowhere
        ],
        λ (x, y0, y1). b (inl (e (x, g (y0, y1)))),
      ),
)
