-- ===== src/Gateway/Metrics/Folding.antt =====
-- The allowlist of crates/hackline-gateway/src/metrics.rs bounds the labels of its event counter.
use hackline.Prelude.{ℕ, ◌≡◌, refl, true, List, [], ◌∷◌, some, anyb, All, Bool-cases, ◌⊎◌, inl, inr}
use hackline.Prelude.Text.{Text, lit, text_eq}
use hackline.Gateway.Metrics.{Metrics, alter, bump, bucket, inc_event}

-- A label that the allowlist admits.
abbrev pub Admitted : List Text → Text × ℕ → Type 0
Admitted allow (label, _) = (label ≡ lit "_other") ⊎ (anyb (λ t. text_eq t label) allow ≡ true)

bump-Admitted :
    (allow : List Text) (k : Text) (m : List (Text × ℕ))
    → Admitted allow (k, 1)
    → All (Admitted allow) m
    → All (Admitted allow) (bump text_eq k m)
unfolding bump alter
bump-Admitted allow k [] h hs = (h, tt)
bump-Admitted allow k ((j, n) ∷ m) h (g, gs) = elim (Bool-cases (text_eq j k)) [
  | inl same ↦ rw same (g, gs)
  | inr other ↦ rw other (g, bump-Admitted allow k m h gs)
]

bucket-Admitted : (allow : List Text) (topic : Text) → Admitted allow (bucket (some allow) topic, 1)
unfolding bucket
bucket-Admitted allow topic = elim (Bool-cases (anyb (λ t. text_eq t topic) allow)) [
  | inl there ↦ rw there (inr there)
  | inr missing ↦ rw missing (inl refl)
]

pub topics_seen : Metrics → List Text → Metrics
topics_seen m [] = m
topics_seen m (t ∷ ts) = topics_seen (inc_event m t) ts

-- Under an allowlist, if every label of the event counter is a topic of the list or `_other`,
-- then it stays so whatever topics devices publish.
pub inc_event-Admitted :
    (allow topics : List Text) (m : Metrics)
    → m.event_topic_allow ≡ some allow
    → All (Admitted allow) m.events_received_total
    → All (Admitted allow) (topics_seen m topics).events_received_total
unfolding topics_seen inc_event
inc_event-Admitted allow [] m e h = h
inc_event-Admitted allow (t ∷ ts) m e h = inc_event-Admitted allow ts (inc_event m t) e (
    rw e (
      bump-Admitted allow (bucket (some allow) t) m.events_received_total (bucket-Admitted allow t)
        h))
