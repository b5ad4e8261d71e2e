-- ===== src/Paging/Cursors.antt =====
-- The cursors of a paged list: none is requested twice, so loading more ends.
use sigil_manager.Prelude.{
  ◌+◌, ◌≤◌, String, Bool, true, false, Option, none, some, List, [], ◌∷◌, ◌++◌, ◌≡◌, ◌⊎◌, inl, inr,
  refl, arith, ◌||◌, ◌&&◌, includes, Distinct, Distinct-concat, length-le_of_Distinct, All,
  All-append, All-append_left, length, length-append, truthy?, Option-cases,
}
use sigil_manager.Paging.Params.{param_eq}
use sigil_manager.Paging.{
  PagesData, last?, next, get_next_page_param, cursor_repeated, has_more, PagedQuery,
}

module _ {κ} {P : Type κ} (next_cursor : P → Option String) where
  -- What the query library documents of its data: the first page was fetched at the initial
  -- parameter, `undefined`, and each later one at the parameter that `getNextPageParam` gave for
  -- the pages before it, by `fetchNextPage` or by a refetch of all pages.
  pub data Loaded : PagesData P → Type κ where
    first : (page : P) → Loaded (record { pages = page ∷ []; page_params = none ∷ [] })
    more :
        {d : PagesData P} (page : P) {c : String}
        → Loaded d
        → get_next_page_param (next next_cursor d) d.page_params ≡ some c
        → Loaded
            (record { pages = d.pages ++ page ∷ []; page_params = d.page_params ++ some c ∷ [] })

  -- The next parameter is the last cursor, and it is new.
  next_param_fresh :
      (cursor : Option String) (params : List (Option String)) {c : String}
      → get_next_page_param cursor params ≡ some c
      → (cursor ≡ some c) × (includes params (some c) ≡ false)
  unfolding get_next_page_param
  next_param_fresh cursor params h = ground (arith)

  -- No parameter is requested twice.
  pub Loaded-Distinct : {d : PagesData P} → Loaded d → Distinct d.page_params
  Loaded-Distinct (first page) = (refl, tt)
  Loaded-Distinct (more {d} page {c} l h) =
      Distinct-concat d.page_params (some c) (Loaded-Distinct l)
        (next_param_fresh (next next_cursor d) d.page_params h).1

  -- There is one parameter for each page.
  pub Loaded-length : {d : PagesData P} → Loaded d → length d.pages ≡ length d.page_params
  Loaded-length (first page) = refl
  Loaded-length (more {d} page {c} l h) = omega (
    arith,
    Loaded-length l,
    length-append {κ} d.pages (page ∷ []),
    length-append {0} d.page_params (some c ∷ []),
  )

  -- The cursors that a page can offer are among those of a list.
  abbrev pub Offers : List (Option String) → P → Type 0
  Offers cs page = (c : String) → next_cursor page ≡ some c → includes cs (some c) ≡ true

  last?-Offers :
      (cs : List (Option String)) (pages : List P) (c : String)
      → All (Offers cs) pages
      → elim (last? pages) as (λ _. Option String) [ none ↦ none | some page ↦ next_cursor page ]
        ≡ some c
      → includes cs (some c) ≡ true
  last?-Offers cs [] c h k = ground arith
  last?-Offers cs (page ∷ []) c h k = h.0 c k
  last?-Offers cs (page ∷ page' ∷ pages) c h k = last?-Offers cs (page' ∷ pages) c h.1 k

  Loaded-params :
      (cs : List (Option String)) {d : PagesData P}
      → Loaded d
      → All (Offers cs) d.pages
      → All (λ p. includes (none ∷ cs) p ≡ true) d.page_params
  Loaded-params cs (first page) h = (refl, tt)
  Loaded-params cs (more {d} page {c} l k) h =
      let before = All-append_left (Offers cs) d.pages (page ∷ []) h in
      let asked = next_param_fresh (next next_cursor d) d.page_params k in
      All-append (λ p. includes (none ∷ cs) p ≡ true) d.page_params (some c ∷ [])
        (Loaded-params cs l before) (last?-Offers cs d.pages c before asked.0, tt)

  -- A server that offers the cursors of a list, each at most so often as it likes, makes the
  -- console load at most one page more than the list is long.
  pub Loaded-bound :
      (cs : List (Option String)) {d : PagesData P}
      → Loaded d
      → All (Offers cs) d.pages
      → length d.pages ≤ length cs + 1
  Loaded-bound cs {d} l h = omega (
    arith,
    Loaded-length l,
    length-le_of_Distinct d.page_params (none ∷ cs) (Loaded-Distinct l) (Loaded-params cs l h),
  )

  -- Exactly one of these holds of loaded data: there is more to load, the server repeated a cursor,
  -- or the last page has no cursor.
  pub has_more-cursor_repeated :
      (d : PagesData P)
      → ((has_more next_cursor (some d) || cursor_repeated next_cursor (some d))
          ≡ truthy? (next next_cursor d))
        × ((has_more next_cursor (some d) && cursor_repeated next_cursor (some d)) ≡ false)
  unfolding has_more cursor_repeated
  has_more-cursor_repeated d = elim (Option-cases (next next_cursor d)) [
    | inl end ↦ (ground arith, ground arith)
    | inr (c, last) ↦ (ground arith, ground arith)
  ]

-- A query with pages, while none is fetched.
abbrev pub settled {κ} : {P : Type κ} → PagesData P → (has_error : Bool) → PagedQuery P
settled d has_error = record {
  loaded = some d;
  is_pending = false;
  has_error = has_error;
  is_fetching = false;
}

module _ {κ} {P : Type κ} (next_cursor : P → Option String) (fetch : String → Option P)
    (found : PagedQuery P → Bool) where
  -- How loading ends, with so many cursors: what is wanted is there, or nothing is left to load, or a
  -- request failed; and what the query then has.
  abbrev pub Ended : List (Option String) → PagedQuery P → Type κ
  Ended cs r =
      ((found r ≡ true)
        ⊎ (has_more next_cursor r.loaded ≡ false)
        ⊎ ((r.has_error ≡ true) × ((c : String) × (fetch c ≡ none))))
      × ((e : PagesData P) × (failed : Bool) × (r ≡ settled e failed)
          × Loaded next_cursor e
          × (length e.pages ≤ length cs + 1))
