-- ===== src/Checks/PagingChecks.antt =====
-- Paged lists on a server with two cursors.
use sigil_manager.Prelude.{
  String, Bool, true, false, Option, none, some, List, [], ◌∷◌, ◌≡◌, refl, string_eq,
}
use sigil_manager.Paging.Params.{param_eq}
use sigil_manager.Paging.{
  PagesData, PagedQuery, rows, all_rows, has_more, cursor_repeated, load_more, load_until,
  wants_more,
}
use sigil_manager.Paging.Rows.{Shows, rows-Shows}
use sigil_manager.Paging.Cursors.{settled}

pub record NamesPage : Type 0 where
  pub hosts : List String
  pub cursor : Option String

abbrev select : NamesPage → Option (List String)
select page = some page.hosts

abbrev identity : String → String
identity host = host

abbrev page_one : NamesPage
page_one = record { hosts = "a" ∷ "b" ∷ []; cursor = some "c1" }

abbrev page_two : NamesPage
page_two = record { hosts = "b" ∷ "c" ∷ []; cursor = some "c1" }

abbrev start : PagesData NamesPage
start = record { pages = page_one ∷ []; page_params = none ∷ [] }

-- A server that repeats its cursor.
abbrev server : String → Option NamesPage
server c = some page_two

paging : Unit {0}
unfolding rows has_more cursor_repeated load_more load_until wants_more
paging = tt

abbrev cursor_of : NamesPage → Option String
cursor_of p = p.cursor

repeated_cursor :
    let loaded = (load_more cursor_of server (settled start false)).loaded in
    (rows select identity loaded ≡ "a" ∷ "b" ∷ "c" ∷ [])
    × (cursor_repeated cursor_of loaded ≡ true)
    × (has_more cursor_of loaded ≡ false)
unfolding paging
repeated_cursor = (refl, refl, refl)

-- A request that fails keeps the pages and stops the effect.
failed_request :
    load_until cursor_of (λ c. none) (λ q. false) 3 (settled start false) ≡ settled start true
unfolding paging
failed_request = refl

abbrev cursors : List (Option String)
cursors = some "c1" ∷ []

rows-Shows_example :
    Shows identity (rows select identity (some start)) (all_rows select (some start))
rows-Shows_example = rows-Shows select identity (some start)

-- The host that is wanted never comes: the loop stops at the repeated cursor.
abbrev never : PagedQuery NamesPage → Bool
never q = false
