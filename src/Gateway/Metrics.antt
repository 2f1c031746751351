-- ===== src/Gateway/Metrics.antt =====
-- crates/hackline-gateway/src/metrics.rs: the labelled counters. A counter is a `u64`, and a map of
-- counters holds one entry for each label.
pub mod Folding
pub mod Values
use hackline.Prelude.{
  ℕ, ◌+◌, ◌-◌, Bool, true, false, not, ◌&&◌, List, [], ◌∷◌, Option, none, some, anyb, if◌then◌else◌,
}
use Prim.Native.Nat.{◌%◌}
use hackline.Prelude.Int.{ℤ}
use hackline.Prelude.Text.{Text, lit, text_eq}

-- `Outcome` and its label.
pub data Outcome : Type 0 where
  ok error : Outcome

abbrev pub as_str : Outcome → Text
as_str ok = lit "ok"
as_str error = lit "error"

-- `map.entry(label).or_insert(0)`, changed by `f`.
unfoldable pub alter {ℓ} : {K : Type ℓ} → (K → K → Bool) → (ℕ → ℕ) → K → List (K × ℕ) → List (K × ℕ)
alter eq f k [] = (k, f 0) ∷ []
alter eq f k ((j, n) ∷ m) = if eq j k then (j, f n) ∷ m else (j, n) ∷ alter eq f k m

-- `+= by`, on a `u64`.
abbrev add_to : ℕ → ℕ → ℕ
add_to by n = (n + by) % 18446744073709551616

-- `*map.entry(label).or_insert(0) += 1`.
unfoldable pub bump {ℓ} : {K : Type ℓ} → (K → K → Bool) → K → List (K × ℕ) → List (K × ℕ)
unfolding alter
bump eq = alter eq (add_to 1)

abbrev pub pair_eq : Text × Text → Text × Text → Bool
pair_eq (a, b) (c, d) = text_eq a c && text_eq b d

-- `Metrics`, with its `Inner`.
pub record Metrics : Type 0 where
  pub tunnel_sessions_total : List ((Text × Text) × ℕ)
  pub tunnel_active : List (Text × ℕ)
  pub tunnel_bytes_total : List (Text × ℕ)
  pub cmd_total : List (Text × ℕ)
  pub events_received_total : List (Text × ℕ)
  pub logs_received_total : List (Text × ℕ)
  pub api_calls_total : List ((Text × Text) × ℕ)
  pub event_topic_allow : Option (List Text)
  pub devices_online : ℤ
  pub audit_rows : ℤ

unfoldable pub set_event_topic_allowlist : Metrics → Option (List Text) → Metrics
set_event_topic_allowlist m topics = record m { event_topic_allow = topics }

unfoldable pub inc_tunnel_session : Metrics → Text → Outcome → Metrics
unfolding bump
inc_tunnel_session m kind outcome = record m {
  tunnel_sessions_total = bump pair_eq (kind, as_str outcome) m.tunnel_sessions_total;
}

unfoldable pub inc_cmd : Metrics → Text → Metrics
unfolding bump
inc_cmd m outcome = record m { cmd_total = bump text_eq outcome m.cmd_total }

-- The label under which a topic is counted.
unfoldable pub bucket : Option (List Text) → Text → Text
bucket none topic = topic
bucket (some allow) topic = if not (anyb (λ t. text_eq t topic) allow) then lit "_other" else topic

unfoldable pub inc_event : Metrics → Text → Metrics
unfolding bump bucket
inc_event m topic = record m {
  events_received_total = bump text_eq (bucket m.event_topic_allow topic) m.events_received_total;
}

unfoldable pub inc_log : Metrics → Text → Metrics
unfolding bump
inc_log m level = record m { logs_received_total = bump text_eq level m.logs_received_total }

unfoldable pub inc_api_call : Metrics → Text → Outcome → Metrics
unfolding bump
inc_api_call m topic outcome = record m {
  api_calls_total = bump pair_eq (topic, as_str outcome) m.api_calls_total;
}

unfoldable pub set_devices_online : Metrics → ℤ → Metrics
set_devices_online m n = record m { devices_online = n }

unfoldable pub set_audit_rows : Metrics → ℤ → Metrics
set_audit_rows m n = record m { audit_rows = n }

-- The gauge is an `i64` that starts at 0 and is taken down only above 0, so it is not negative.
unfoldable pub inc_tunnel_active : Metrics → Text → Metrics
unfolding alter
inc_tunnel_active m kind = record m {
  tunnel_active = alter text_eq (λ n. n + 1) kind m.tunnel_active;
}

-- `if *entry > 0 { *entry -= 1 }`: subtraction on naturals stops at 0.
unfoldable pub dec_tunnel_active : Metrics → Text → Metrics
unfolding alter
dec_tunnel_active m kind = record m {
  tunnel_active = alter text_eq (λ n. n - 1) kind m.tunnel_active;
}

unfoldable pub add_tunnel_bytes : Metrics → ℕ → ℕ → Metrics
unfolding alter
add_tunnel_bytes m up down = record m {
  tunnel_bytes_total =
      alter text_eq (add_to down) (lit "down")
        (alter text_eq (add_to up) (lit "up") m.tunnel_bytes_total);
}
