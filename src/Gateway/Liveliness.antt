-- ===== src/Gateway/Liveliness.antt =====
-- `handle_sample` of crates/hackline-gateway/src/liveliness.rs: what the gateway does when a device
-- declares or retracts its liveliness token. The clock (`unixepoch()`) is an argument.
pub mod Presence
use hackline.Prelude.{ℕ}
use hackline.Prelude.Int.{ℤ}
use hackline.Prelude.Text.{Text}
use hackline.Prelude.Outcome.{Result, ok, ok_or, ◌>>=◌}
use hackline.Proto.Keyexpr.{parse_health_keyexpr}
use hackline.Gateway.Error.{GatewayError, bad_request, unparsable_keyexpr, unknown_org}
use hackline.Gateway.Schema.{Db}
use hackline.Gateway.Orgs.{get_by_slug}
use hackline.Gateway.Devices.{upsert_seen, mark_offline}

-- Zenoh's `SampleKind`.
pub data SampleKind : Type 0 where
  put delete : SampleKind

-- The part of `handle_sample` below the look-up of the organisation.
stamp : Db → ℕ → Text → ℤ → SampleKind → Result GatewayError Db
stamp d org_id zid now put = do (_, d') ← upsert_seen d org_id zid now; ok d'
stamp d org_id zid now delete = ok (mark_offline d org_id zid)

unfoldable pub handle_sample : Db → Text → SampleKind → ℤ → Result GatewayError Db
unfolding stamp
handle_sample d ke kind now = do
  (org_slug, zid) ← ok_or (parse_health_keyexpr ke) (bad_request (unparsable_keyexpr ke))
  org ← ok_or (get_by_slug d org_slug) (bad_request (unknown_org org_slug))
  stamp d org.id zid.as_str now kind
