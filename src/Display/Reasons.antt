-- ===== src/Display/Reasons.antt =====
-- web/src/components/ReasonList.tsx and ObservedControls.tsx: the keys of a list of reasons, the
-- fields that a reason shows, and the shortening of long values. `identity` is the JSON text of a
-- reason's entries in the order of their names, and `stringify` is `JSON.stringify`.
pub mod Keys
pub mod Views
use sigil_manager.Prelude.{
  ℕ, zero, suc, ◌+◌, String, Bool, true, false, Option, none, some, List, [], ◌∷◌, ◌&&◌, not,
  if◌then◌else◌, ◌==◌, string_eq, ltb, leb, length, units, filter, map, template, truthy, Json,
  Items, Fields, end, field, lookup, items,
}
use sigil_manager.Api.Fleet.{ReasonLike, Nullable, AiGuardControl}
use sigil_manager.Display.Labels.{human_kind}

abbrev pub field_labels : List (String × String)
field_labels =
    ("pattern", "pattern")
    ∷ ("executor", "executor")
    ∷ ("server_name", "server")
    ∷ ("server", "server")
    ∷ ("tool", "tool")
    ∷ ("servers", "servers")
    ∷ ("url", "url")
    ∷ ("command", "command")
    ∷ ("shape", "shape")
    ∷ ("evidence", "match")
    ∷ ("mechanism", "via")
    ∷ ("mode", "mode")
    ∷ ("rule", "rule")
    ∷ ("matcher", "matcher")
    ∷ ("name", "task")
    ∷ ("path", "path")
    ∷ ("script_path", "script path")
    ∷ ("hook_event", "hook event")
    ∷ ("directive_kind", "directive")
    ∷ ("snippet", "snippet")
    ∷ ("text_kind", "hidden text")
    ∷ ("baseline_hash", "baseline hash")
    ∷ ("current_hash", "current hash")
    ∷ ("list", "replaced defaults")
    ∷ ("destination", "destination")
    ∷ ("source", "source")
    ∷ []

abbrev pub notes : List (String × String)
notes =
    (
      "mcp_tool_surface_drift",
      "Compared with the first observed baseline, not an operator approval or signature.",
    )
    ∷ (
      "mcp_unapproved_new_tool",
      "Not in the first observed baseline; this does not establish an approval violation.",
    )
    ∷ (
      "mcp_schema_privilege_expansion",
      "Schema change relative to the first observed baseline; not proof of runtime execution.",
    )
    ∷ (
      "mcp_read_only_hint_contradiction",
      "Metadata heuristic; not proof of a write or an approval bypass.",
    )
    ∷ []

abbrev pub entry_of : String → List (String × String) → Option String
entry_of k [] = none
entry_of k ((j, t) ∷ table) = let later = entry_of k table in if j == k then some t else later

-- `occurrences`: how often each identity has come so far.
abbrev pub Occurrences : Type 0
Occurrences = String → ℕ

unfoldable pub bump : String → Occurrences → Occurrences
bump k seen j = if j == k then seen k + 1 else seen j

module _ (identity : ReasonLike → String) where
  -- The two parts of the key of each item.
  unfoldable pub reason_keys : Occurrences → List ReasonLike → List (String × ℕ)
  unfolding bump
  reason_keys seen [] = []
  reason_keys seen (reason ∷ reasons) =
      let k = identity reason in (k, seen k) ∷ reason_keys (bump k seen) reasons

abbrev is_nothing : Json → Bool
is_nothing Json.undefined = true
is_nothing Json.null = true
is_nothing _ = false

-- The entries that an item lists.
unfoldable pub shown_entries : Fields → List (String × Json)
shown_entries end = []
shown_entries (field k v fs) =
    let rest = shown_entries fs in
    if not (k == "kind") && not (k == "source_chain") && not (is_nothing v)
    then (k, v) ∷ rest
    else rest

abbrev texts_of : List Json → List String
texts_of [] = []
texts_of (Json.string s ∷ vs) = s ∷ texts_of vs
texts_of (v ∷ vs) = texts_of vs

abbrev array_texts : Json → List String
array_texts (Json.array vs) = texts_of (items vs)
array_texts _ = []

-- `chain`
unfoldable pub source_chain : ReasonLike → List String
source_chain reason = array_texts (lookup "source_chain" reason.entries)

unfoldable pub entry_label : (upper : String → String) → String → String
entry_label upper key = elim (entry_of key field_labels) [
  | none ↦ human_kind upper key
  | some label ↦ label
]

abbrev take {ℓ} : {A : Type ℓ} → ℕ → List A → List A
take zero xs = []
take (suc n) [] = []
take (suc n) (x ∷ xs) = x ∷ take n xs

-- A value as text, and the units of its summary where it is long.
pub record EvidenceValue : Type 0 where
  pub text : String
  pub summary : Option (List ℕ)

unfoldable pub evidence_value : (stringify : Json → String) → Json → EvidenceValue
evidence_value stringify value =
    let text : String = elim value [ Json.string s ↦ s | other ↦ stringify other ] in
    record {
      text = text;
      summary = if leb (length (units text)) 96 then none else some (take 64 (units text));
    }

-- The line of the observed controls of an assessment, or the controls to list.
unfoldable pub controls_line : Nullable (List AiGuardControl) → Option String
controls_line Nullable.undefined = some "Not reported for this assessment."
controls_line Nullable.null = some "Not reported for this assessment."
controls_line (Nullable.present []) = some "Inspected; no active settings observed."
controls_line (Nullable.present (c ∷ cs)) = none
