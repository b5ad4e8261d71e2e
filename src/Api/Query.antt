-- ===== src/Api/Query.antt =====
-- The query strings of web/src/api/fleet.ts. `URLSearchParams` is a list of pairs; its printing is
-- the platform's, and a parameter.
pub mod Values
use sigil_manager.Prelude.{
  String, Bool, true, false, Option, none, some, List, [], ◌∷◌, ◌++◌, not, if◌then◌else◌, ◌==◌,
  string_eq, Number, template, truthy, join, filter,
}
use sigil_manager.Api.Fleet.{Bucket, bucket_text}

abbrev pub Pairs : Type 0
Pairs = List (String × String)

unfoldable pub remove : String → Pairs → Pairs
remove k [] = []
remove k ((j, v) ∷ q) = let rest = remove k q in if j == k then rest else (j, v) ∷ rest

-- `q.set(k, v)`: the first pair of the name takes the value, and the others go.
unfoldable pub set : String → String → Pairs → Pairs
unfolding remove
set k v [] = (k, v) ∷ []
set k v ((j, w) ∷ q) = let rest = set k v q in if j == k then (k, v) ∷ remove k q else (j, w) ∷ rest

-- `q.append(k, v)`
abbrev pub append : String → String → Pairs → Pairs
append k v q = q ++ (k, v) ∷ []

-- `if (v) q.set(k, v)`
abbrev pub set_text : String → Option String → Pairs → Pairs
set_text k none q = q
set_text k (some v) q = if not (v == "") then set k v q else q

-- `if (typeof v === 'number') q.set(k, String(v))`
abbrev pub set_number : String → Option Number → Pairs → Pairs
set_number k none q = q
set_number k (some n) q = set k n.decimal q

-- `if (v?.length) q.set(k, v.join(','))`
abbrev pub set_joined : String → Option (List String) → Pairs → Pairs
set_joined k none q = q
set_joined k (some []) q = q
set_joined k (some (v ∷ vs)) q = set k (join "," (v ∷ vs)) q

-- `for (const v of vs) q.append(k, v)`
unfoldable pub append_all : String → List String → Pairs → Pairs
append_all k [] q = q
append_all k (v ∷ vs) q = append_all k vs (append k v q)

abbrev pub append_each : String → Option (List String) → Pairs → Pairs
append_each k none q = q
append_each k (some vs) q = append_all k vs q

pub record EventsParams : Type 0 where
  pub cursor : Option String
  pub limit : Option Number
  pub host_id : Option (List String)
  pub since : Option String
  pub until : Option String
  pub evidence_kind : Option (List String)
  pub severity : Option (List String)
  pub source : Option (List String)
  pub min_ai_guard_bucket : Option Bucket

abbrev pub bucket_param : Option Bucket → Option String
bucket_param none = none
bucket_param (some b) = some (bucket_text b)

unfoldable pub build_query : EventsParams → Pairs
unfolding set append_all
build_query p =
    let q = set_text "cursor" p.cursor [] in
    let q = set_number "limit" p.limit q in
    let q = set_text "since" p.since q in
    let q = set_text "until" p.until q in
    let q = set_joined "evidence_kind" p.evidence_kind q in
    let q = set_joined "severity" p.severity q in
    let q = set_joined "source" p.source q in
    let q = set_text "min_ai_guard_bucket" (bucket_param p.min_ai_guard_bucket) q in
    append_each "host_id" p.host_id q

pub record RiskParams : Type 0 where
  pub cursor : Option String
  pub limit : Option Number
  pub tool : Option (List String)
  pub min_bucket : Option Bucket

pub record ComplianceParams : Type 0 where
  pub cursor : Option String
  pub limit : Option Number

pub data HostSort : Type 0 where
  last_seen risk host_id : HostSort

pub record HostsParams : Type 0 where
  pub cursor : Option String
  pub limit : Option Number
  pub status : Option String
  pub sort : Option HostSort

abbrev pub sort_param : Option HostSort → Option String
sort_param none = none
sort_param (some last_seen) = some "last_seen"
sort_param (some risk) = some "risk"
sort_param (some host_id) = some "host_id"

unfoldable pub risk_query : RiskParams → Pairs
unfolding set
risk_query p =
    let q = set_text "cursor" p.cursor [] in
    let q = set_number "limit" p.limit q in
    let q = set_joined "tool" p.tool q in set_text "min_bucket" (bucket_param p.min_bucket) q

unfoldable pub compliance_query : ComplianceParams → Pairs
unfolding set
compliance_query p = set_number "limit" p.limit (set_text "cursor" p.cursor [])

unfoldable pub hosts_query : HostsParams → Pairs
unfolding set
hosts_query p =
    let q = set_text "cursor" p.cursor [] in
    let q = set_number "limit" p.limit q in
    let q = set_text "status" p.status q in set_text "sort" (sort_param p.sort) q

-- The paths of the requests. `to_string` prints the pairs, and `encode` is `encodeURIComponent`.
module _ (to_string : Pairs → String) (encode : String → String) where
  -- `s ? `?${s}` : ''`
  abbrev suffix : String → String
  suffix s = if truthy s then template ("?" ∷ s ∷ []) else ""

  unfoldable pub fleet_events_path : EventsParams → String
  fleet_events_path p = template ("/fleet/events" ∷ suffix (to_string (build_query p)) ∷ [])

  unfoldable pub fleet_risk_path : RiskParams → String
  fleet_risk_path p = template ("/fleet/risk" ∷ suffix (to_string (risk_query p)) ∷ [])

  unfoldable pub fleet_compliance_path : ComplianceParams → String
  fleet_compliance_path p =
      template ("/fleet/compliance" ∷ suffix (to_string (compliance_query p)) ∷ [])

  unfoldable pub fleet_hosts_path : HostsParams → String
  fleet_hosts_path p = template ("/fleet/hosts?" ∷ to_string (hosts_query p) ∷ [])

  unfoldable pub fleet_event_path : String → String
  fleet_event_path event_id = template ("/fleet/events/" ∷ encode event_id ∷ [])

  unfoldable pub fleet_host_path : String → String
  fleet_host_path host = template ("/fleet/hosts/" ∷ encode host ∷ [])
