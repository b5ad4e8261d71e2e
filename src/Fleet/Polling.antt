-- ===== src/Fleet/Polling.antt =====
-- How the fleet hooks ask: web/src/hooks/useFleetQuery.ts, useFleetMeta.ts and the options of
-- usePagedFleet.ts. The query library runs the polls.
use sigil_manager.Prelude.{ℕ, ◌*◌, Bool, true, false, Option, none, some, ltb, if◌then◌else◌}
use sigil_manager.Api.Client.{Failure, not_found, is_instance}

abbrev pub fleet_poll_interval_ms : ℕ
fleet_poll_interval_ms = 20000

abbrev pub meta_stale_ms : ℕ
meta_stale_ms = 5 * 60000

-- `interval?: number | false`, where it is given.
pub data Interval : Type 0 where
  unset off : Interval
  every : (ms : ℕ) → Interval

-- `options.interval ?? FLEET_POLL_INTERVAL_MS`
unfoldable pub paged_interval : Interval → Option ℕ
paged_interval unset = some fleet_poll_interval_ms
paged_interval off = none
paged_interval (every ms) = some ms

pub record QueryOptions : Type 0 where
  pub refetch_interval : Option ℕ
  pub in_background : Bool
  pub keep_previous : Bool
  pub retry : Option (ℕ → Failure → Bool)

-- `useFleetQuery`: the options of the caller come last.
unfoldable pub fleet_query_options : (retry : Option (ℕ → Failure → Bool)) → QueryOptions
fleet_query_options retry = record {
  refetch_interval = some fleet_poll_interval_ms;
  in_background = false;
  keep_previous = true;
  retry = retry;
}

-- `retry` of the query of one host.
unfoldable pub host_retry : (failure_count : ℕ) → Failure → Bool
host_retry failure_count error = if is_instance not_found error then false else ltb failure_count 2
