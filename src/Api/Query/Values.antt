-- ===== src/Api/Query/Values.antt =====
-- What a query says of each name, whatever was set before and after.
use sigil_manager.Prelude.{
  String, Option, none, some, List, [], ◌∷◌, ◌++◌, ◌≡◌, arith, if◌then◌else◌, ◌==◌, string_eq,
  eq_iff, Number, join, not,
}
use mathlib.Core.List.{append-nil, append_assoc}
use sigil_manager.Api.Query.{
  Pairs, remove, set, append, set_text, set_number, set_joined, append_all, append_each,
  EventsParams, bucket_param, build_query,
}

-- `q.getAll(k)`
unfoldable pub get_all : String → Pairs → List String
get_all k [] = []
get_all k ((j, v) ∷ q) = let rest = get_all k q in if j == k then v ∷ rest else rest

get_all-remove :
    (k j : String) (q : Pairs) → get_all j (remove k q) ≡ (if k == j then [] else get_all j q)
unfolding get_all remove
get_all-remove k j [] = ground arith
get_all-remove k j ((i, v) ∷ q) =
    ground (arith, get_all-remove k j q, eq_iff i k, eq_iff i j, eq_iff k j)

get_all-set :
    (k j v : String) (q : Pairs) → get_all j (set k v q) ≡ (if k == j then v ∷ [] else get_all j q)
unfolding get_all set
get_all-set k j v [] = ground arith
get_all-set k j v ((i, w) ∷ q) =
    ground (arith, get_all-set k j v q, get_all-remove k j q, eq_iff i k, eq_iff i j, eq_iff k j)

-- What one line of a query adds under its name.
abbrev pub text_or : Option String → List String → List String
text_or none l = l
text_or (some v) l = if not (v == "") then v ∷ [] else l

abbrev pub number_or : Option Number → List String → List String
number_or none l = l
number_or (some n) l = n.decimal ∷ []

abbrev pub joined_or : Option (List String) → List String → List String
joined_or none l = l
joined_or (some []) l = l
joined_or (some (v ∷ vs)) l = join "," (v ∷ vs) ∷ []

abbrev pub each_or : Option (List String) → List String → List String
each_or none l = l
each_or (some vs) l = l ++ vs

module _ (k j : String) (q : Pairs) where
  get_all-set_text :
      (v : Option String)
      → get_all j (set_text k v q) ≡ (if k == j then text_or v (get_all j q) else get_all j q)
  get_all-set_text none = ground arith
  get_all-set_text (some v) = ground (arith, get_all-set k j v q)

  get_all-set_number :
      (v : Option Number)
      → get_all j (set_number k v q) ≡ (if k == j then number_or v (get_all j q) else get_all j q)
  get_all-set_number none = ground arith
  get_all-set_number (some n) = get_all-set k j n.decimal q

  get_all-set_joined :
      (v : Option (List String))
      → get_all j (set_joined k v q) ≡ (if k == j then joined_or v (get_all j q) else get_all j q)
  get_all-set_joined none = ground arith
  get_all-set_joined (some []) = ground arith
  get_all-set_joined (some (v ∷ vs)) = get_all-set k j (join "," (v ∷ vs)) q

get_all-append :
    (k j v : String) (q : Pairs)
    → get_all j (append k v q) ≡ (if k == j then get_all j q ++ v ∷ [] else get_all j q)
unfolding get_all
get_all-append k j v [] = ground arith
get_all-append k j v ((i, w) ∷ q) = ground (arith, get_all-append k j v q)

get_all-append_all :
    (k j : String) (vs : List String) (q : Pairs)
    → get_all j (append_all k vs q) ≡ (if k == j then get_all j q ++ vs else get_all j q)
unfolding append_all
get_all-append_all k j [] q = ground (arith, append-nil (get_all j q))
get_all-append_all k j (v ∷ vs) q = ground (
  arith,
  get_all-append_all k j vs (append k v q),
  get_all-append k j v q,
  append_assoc (get_all j q) (v ∷ []) vs,
)

get_all-append_each :
    (k j : String) (vs : Option (List String)) (q : Pairs)
    → get_all j (append_each k vs q) ≡ (if k == j then each_or vs (get_all j q) else get_all j q)
get_all-append_each k j none q = ground arith
get_all-append_each k j (some vs) q = get_all-append_all k j vs q

ruleset query_laws = (get_all-set_text, get_all-set_number, get_all-set_joined, get_all-append_each)

-- What the server reads under each name of an events query: a text that is given and not empty, a
-- number that is given, a list that is given and not empty as one text joined by commas, and each
-- host by itself in the order given; nothing is there twice but hosts.
pub record Carries (q : Pairs) (p : EventsParams) : Type 0 where
  pub cursor : get_all "cursor" q ≡ text_or p.cursor []
  pub limit : get_all "limit" q ≡ number_or p.limit []
  pub since : get_all "since" q ≡ text_or p.since []
  pub until : get_all "until" q ≡ text_or p.until []
  pub evidence_kind : get_all "evidence_kind" q ≡ joined_or p.evidence_kind []
  pub severity : get_all "severity" q ≡ joined_or p.severity []
  pub source : get_all "source" q ≡ joined_or p.source []
  pub bucket : get_all "min_ai_guard_bucket" q ≡ text_or (bucket_param p.min_ai_guard_bucket) []
  pub host_id : get_all "host_id" q ≡ each_or p.host_id []

-- The query of an events request carries, under each name, exactly what the parameters hold: a text
-- or a number once, the values of a list joined by commas once, each host id on its own, and nothing
-- for a parameter that is missing or empty.
pub build_query-Carries : (p : EventsParams) → Carries (build_query p) p
unfolding build_query get_all
build_query-Carries p = record {
  cursor = simp query_laws;
  limit = simp query_laws;
  since = simp query_laws;
  until = simp query_laws;
  evidence_kind = simp query_laws;
  severity = simp query_laws;
  source = simp query_laws;
  bucket = simp query_laws;
  host_id = simp query_laws;
}
