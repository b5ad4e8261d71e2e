-- ===== src/Server/Listing.antt =====
-- `ListByStatus` of internal/triage/repo.go. `format_ts` and `parse_ts` write and read a time.
pub mod Pages
pub mod Strict
pub mod Cursors
pub mod Cuts
pub mod Walks
use sigil_manager.Prelude.{
  ℕ, zero, suc, String, Bool, true, false, not, Option, none, some, List, [], ◌∷◌, ◌≡◌, ltb, eqb,
  if◌then◌else◌, ◌==◌, string_eq, ◌&&◌, filter, includes, length, template, any, of_chars, chars,
}
use Prim.Native.Char.{Char, code}
use Prim.Native.String
use Prim.Native.String.{[], ◌∷◌}
use sigil_manager.Prelude.Sort.{sort}
use sigil_manager.Server.{Row, Store, StoreError, invalid_status, failed, is_valid, all_statuses}
use sigil_manager.Server.Action.{
  Result, ok, err, Action, raise, ◌>>=◌, ◌>>◌, Faults, execute, select_page,
}
use sigil_manager.Server.KeyOrder.{Key, past}

-- `clampLimit`; a limit below zero is as zero.
unfoldable pub clamp_limit : ℕ → ℕ
clamp_limit n = if eqb n 0 then 50 else if ltb 1000 n then 1000 else n

pub record ListOpts : Type 0 where
  pub statuses : List String
  pub limit : ℕ
  pub cursor : String

pub record ListResult : Type 0 where
  pub rows : List Row
  pub next_cursor : String

abbrev pub take {ℓ} : {A : Type ℓ} → ℕ → List A → List A
take zero xs = []
take (suc n) [] = []
take (suc n) (x ∷ xs) = x ∷ take n xs

-- `xs[len(xs)-1]`
abbrev pub last {ℓ} : {A : Type ℓ} → List A → Option A
last [] = none
last (x ∷ []) = some x
last (x ∷ y ∷ xs) = last (y ∷ xs)

abbrev pub key_of : Row → Key
key_of r = record { updated_at = r.updated_at; host_id = r.host_id; event_id = r.event_id }

-- `ORDER BY updated_at DESC, host_id ASC, event_id ASC`
abbrev pub row_after : Row → Row → Bool
row_after a b = past (key_of b) (key_of a)

-- The text before the first `|`, and that after it.
unfoldable pub cut : String → Option (String × String)
cut [] = none
cut (c ∷ s) =
    let rest = cut s in
    if eqb (code c) b'|'
    then some ("", s)
    else (elim rest [ none ↦ none | some (a, b) ↦ some (String.◌∷◌ c a, b) ])

-- `statuses`, or all of them.
abbrev pub wanted : List String → List String
wanted [] = all_statuses
wanted (s ∷ ss) = s ∷ ss

-- A time that cannot be read is an error.
abbrev pub read_key : Option ℕ → String → String → Option Key
read_key none host event = none
read_key (some t) host event = some (record { updated_at = t; host_id = host; event_id = event })

unfoldable pub encode_cursor : (format_ts : ℕ → String) → Key → String
encode_cursor format_ts k =
    template (format_ts k.updated_at ∷ "|" ∷ k.host_id ∷ "|" ∷ k.event_id ∷ [])

-- `SplitN` into three, then the time.
unfoldable pub decode_cursor : (parse_ts : String → Option ℕ) → String → Option Key
decode_cursor parse_ts s = elim (cut s) [
  | none ↦ none
  | some (time, rest) ↦ elim (cut rest) [
    | none ↦ none
    | some (host, event) ↦ read_key (parse_ts time) host event
  ]
]

-- The cursor clause: all rows, or those past the key.
abbrev pub is_past : Option Key → Row → Bool
is_past none r = true
is_past (some k) r = past k (key_of r)

module _ (format_ts : ℕ → String) where
  abbrev pub page_of : ℕ → List Row → ListResult
  page_of limit out =
      if ltb limit (length out)
      then record {
        rows = take limit out;
        next_cursor = elim (last (take limit out)) [
          | none ↦ ""
          | some r ↦ encode_cursor format_ts (key_of r)
        ];
      }
      else record { rows = out; next_cursor = "" }

  -- The query and the page that is cut from its rows.
  abbrev pub select : Faults → ℕ → List String → Option Key → Action ListResult
  select fails limit statuses cursor = execute fails select_page >> λ s.
      let matching = filter (λ r. includes statuses r.status && is_past cursor r) s.rows in
      (ok (page_of limit (take (suc limit) (sort row_after matching))), s)

unfoldable pub list_by_status :
    (format_ts : ℕ → String) (parse_ts : String → Option ℕ) → Faults → ListOpts → Action ListResult
unfolding clamp_limit decode_cursor
list_by_status format_ts parse_ts fails opts =
    let limit = clamp_limit opts.limit in
    let statuses = wanted opts.statuses in
    if any (λ s. not (is_valid s)) statuses
    then raise invalid_status
    else if opts.cursor == ""
    then select format_ts fails limit statuses none
    else (elim (decode_cursor parse_ts opts.cursor) [
      | none ↦ raise failed
      | some k ↦ select format_ts fails limit statuses (some k)
    ])
