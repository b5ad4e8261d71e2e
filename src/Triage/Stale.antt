-- ===== src/Triage/Stale.antt =====
-- Which queries a triage write makes stale. The library compares the parts of a key from the left.
-- Parameters in a key are their JSON texts; a key with `null` in it asks for nothing.
use sigil_manager.Prelude.{
  String, Bool, true, false, List, [], ◌∷◌, ◌≡◌, refl, arith, ◌&&◌, ◌==◌, string_eq, any,
}
use sigil_manager.Triage.{upsert_stale, note_stale}

-- The queries of the console.
pub data Query : Type 0 where
  alerts : (params statuses query : String) → Query
  timeline : (params tool : String) → Query
  event : (event_id : String) → Query
  triage : (host_id event_id : String) → Query
  meta healthz methods : Query
  host : (host_id : String) → Query
  hosts risk compliance : (params : String) → Query

unfoldable pub query_key : Query → List String
query_key (alerts params statuses query) = "fleet" ∷ "events" ∷ params ∷ statuses ∷ query ∷ []
query_key (timeline params tool) = "fleet" ∷ "events-timeline" ∷ params ∷ tool ∷ []
query_key (event event_id) = "fleet" ∷ "event" ∷ event_id ∷ []
query_key (triage host_id event_id) = "triage" ∷ host_id ∷ event_id ∷ []
query_key meta = "fleet" ∷ "meta" ∷ []
query_key healthz = "fleet" ∷ "healthz" ∷ []
query_key methods = "auth" ∷ "methods" ∷ []
query_key (host host_id) = "fleet" ∷ "host" ∷ host_id ∷ []
query_key (hosts params) = "fleet" ∷ "hosts" ∷ params ∷ []
query_key (risk params) = "fleet" ∷ "risk" ∷ params ∷ []
query_key (compliance params) = "fleet" ∷ "compliance" ∷ params ∷ []

abbrev pub is_prefix : List String → List String → Bool
is_prefix [] key = true
is_prefix (p ∷ ps) [] = false
is_prefix (p ∷ ps) (k ∷ key) = (p == k) && is_prefix ps key

-- `invalidateQueries` at each of these keys.
abbrev pub is_stale : List (List String) → Query → Bool
is_stale keys q = any (λ k. is_prefix k (query_key q)) keys

-- The queries that can show the triage of an event: the lists of events, the event by itself, and
-- its detail.
abbrev pub shows_triage : (host_id event_id : String) → Query → Bool
shows_triage h e (alerts params statuses query) = true
shows_triage h e (timeline params tool) = true
shows_triage h e (event id) = e == id
shows_triage h e (triage host_id event_id) = (h == host_id) && (e == event_id)
shows_triage h e _ = false

abbrev pub is_detail : (host_id event_id : String) → Query → Bool
is_detail h e (triage host_id event_id) = (h == host_id) && (e == event_id)
is_detail h e _ = false

-- A write of the triage row of an event makes stale exactly the queries that can show it: every list
-- of alerts and of events with any parameters, the event by its id, and the detail of this row. A
-- note makes stale the detail of this row and nothing else.
pub is_stale_lem :
    (host_id event_id : String) (q : Query)
    → (is_stale (upsert_stale host_id event_id) q ≡ shows_triage host_id event_id q)
      × (is_stale (note_stale host_id event_id) q ≡ is_detail host_id event_id q)
unfolding upsert_stale note_stale query_key
is_stale_lem h e (alerts params statuses query) = (refl, refl)
is_stale_lem h e (timeline params tool) = (refl, refl)
is_stale_lem h e (event id) = ground arith
is_stale_lem h e (triage host_id event_id) = ground arith
is_stale_lem h e meta = (refl, refl)
is_stale_lem h e healthz = (refl, refl)
is_stale_lem h e methods = (refl, refl)
is_stale_lem h e (host host_id) = (refl, refl)
is_stale_lem h e (hosts params) = (refl, refl)
is_stale_lem h e (risk params) = (refl, refl)
is_stale_lem h e (compliance params) = (refl, refl)
