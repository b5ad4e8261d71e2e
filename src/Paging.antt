-- ===== src/Paging.antt =====
-- web/src/hooks/usePagedFleet.ts: the pages that a fleet list has loaded, the rows that it shows,
-- and whether there is more. The query library keeps the pages, and its state is `PagesData`.
pub mod Rows
pub mod Cursors
use sigil_manager.Prelude.{
  ℕ, zero, suc, String, Bool, true, false, Option, none, some, List, [], ◌∷◌, ◌++◌, ◌&&◌, not,
  if◌then◌else◌, Eq, ◌==◌, string_eq, includes, flat_map, truthy, truthy?,
}
use sigil_manager.Paging.Params.{param_eq}
pub mod Params

-- `data.pages` and `data.pageParams` of the query: never empty once data is there.
pub record PagesData {ℓ} (P : Type ℓ) : Type ℓ where
  pub pages : List P
  pub page_params : List (Option String)

-- What the query library shows of a paged list: the pages, if one was loaded, whether the first one is
-- pending, and whether the last request failed or one is under way.
pub record PagedQuery {ℓ} (P : Type ℓ) : Type ℓ where
  pub loaded : Option (PagesData P)
  pub is_pending : Bool
  pub has_error : Bool
  pub is_fetching : Bool

-- `xs.at(-1)`
abbrev pub last? {ℓ} : {A : Type ℓ} → List A → Option A
last? [] = none
last? (x ∷ []) = some x
last? (x ∷ y ∷ xs) = last? (y ∷ xs)

-- `getNextPageParam`: the last page's cursor, unless it has been requested already.
unfoldable pub get_next_page_param : Option String → List (Option String) → Option String
get_next_page_param next_cursor params =
    if truthy? next_cursor && not (includes params next_cursor) then next_cursor else none

module _ {ℓ} {T : Type ℓ} (identity : T → String) where
  -- The filter's loop, with the set `seen` as a list.
  unfoldable pub keep_first : List String → List T → List T
  keep_first seen [] = []
  keep_first seen (row ∷ rest) =
      let skip = keep_first seen rest in
      let keep = row ∷ keep_first (identity row ∷ seen) rest in
      if includes seen (identity row) then skip else keep

module _ {ℓ κ} {T : Type ℓ} {P : Type κ} (select : P → Option (List T)) where
  -- `select(page) ?? []`
  abbrev pub selected : P → List T
  selected page = elim (select page) [ none ↦ [] | some rows ↦ rows ]

  unfoldable pub all_rows : Option (PagesData P) → List T
  all_rows none = []
  all_rows (some d) = flat_map selected d.pages

  unfoldable pub rows : (T → String) → Option (PagesData P) → List T
  unfolding keep_first all_rows
  rows identity loaded = keep_first identity [] (all_rows loaded)

module _ {κ} {P : Type κ} (next_cursor : P → Option String) where
  -- The cursor of the last page.
  abbrev pub next : PagesData P → Option String
  next d = elim (last? d.pages) [ none ↦ none | some page ↦ next_cursor page ]

  unfoldable pub cursor_repeated : Option (PagesData P) → Bool
  cursor_repeated none = false
  cursor_repeated (some d) = truthy? (next d) && includes d.page_params (next d)

  -- `q.hasNextPage`: the library asks `getNextPageParam`.
  unfoldable pub has_more : Option (PagesData P) → Bool
  unfolding get_next_page_param
  has_more none = false
  has_more (some d) = elim (get_next_page_param (next d) d.page_params) [
    | none ↦ false
    | some c ↦ true
  ]

  abbrev pub add_page : PagesData P → String → P → PagesData P
  add_page d c page = record {
    pages = d.pages ++ page ∷ [];
    page_params = d.page_params ++ some c ∷ [];
  }

  -- `loadMore` and its answer: the library fetches at the next parameter and puts the page at the
  -- end, or keeps what is loaded and has an error. With nothing next it fetches nothing.
  unfoldable pub load_more : (fetch : String → Option P) → PagedQuery P → PagedQuery P
  load_more fetch q = elim q.loaded [
    | none ↦ q
    | some d ↦ elim (get_next_page_param (next d) d.page_params) [
      | none ↦ q
      | some c ↦ elim (fetch c) [
        | none ↦ record q { has_error = true }
        | some page ↦ record q { loaded = some (add_page d c page); has_error = false }
      ]
    ]
  ]

  -- Whether the effect of the host page loads more: the wanted row is not found, there is more, and
  -- the query neither fetches nor has failed.
  unfoldable pub wants_more : (found : PagedQuery P → Bool) → PagedQuery P → Bool
  wants_more found q = not (found q) && has_more q.loaded && not q.is_fetching && not q.has_error

  -- The effect, again after each answer.
  unfoldable pub load_until :
      (fetch : String → Option P) (found : PagedQuery P → Bool) (fuel : ℕ)
      → PagedQuery P
      → PagedQuery P
  load_until fetch found zero q = q
  load_until fetch found (suc fuel) q = elim (wants_more found q) [
    | true ↦ load_until fetch found fuel (load_more fetch q)
    | false ↦ q
  ]
