-- ===== src/Alerts/Page.antt =====
-- The alerts page, web/src/routes/_authed/alerts.tsx: what each key does on it, and the cheatsheet
-- of web/src/components/AlertsQueue/ShortcutsCheatsheet.tsx.
pub mod Triggers
pub mod Going
pub mod Frame
pub mod Bindings
pub mod Walks
pub mod Typing
pub mod Marks
pub mod Highlight
use sigil_manager.Prelude.{
  ℕ, String, Bool, true, false, Option, none, some, List, [], ◌∷◌, ◌++◌, ◌&&◌, if◌then◌else◌, not,
  ◌==◌, string_eq, map, find, trim, pos, negsuc,
}
use sigil_manager.Api.Triage.{TriageStatus}
use sigil_manager.Api.Fleet.{EventWithTriage}
use sigil_manager.Triage.Panel.{action_buttons}
use sigil_manager.Alerts.Search.{AlertsSearch, SearchChange, filter_of, set_search}
use sigil_manager.Alerts.Chips.{chips}
use sigil_manager.Alerts.Keyboard.{Page, move_cursor, on_enter, on_escape}

-- What a click on a button of the document does.
pub data Click : Type 0 where
  changes : SearchChange → Click
  sets_status : TriageStatus → Click
  elsewhere : Click

pub record PageButton : Type 0 where
  pub text_content : String
  pub disabled : Bool
  pub click : Click

-- The slide-over, where it is open: the status that it shows, whether a write is under way, and the
-- texts of the buttons above and below its actions.
pub record PanelState : Type 0 where
  pub current : TriageStatus
  pub is_pending : Bool
  pub above : List String
  pub below : List String

-- What stands around the keyboard: whether the connection banner is shown, and is fetching; the rows
-- in their order; the texts of the buttons of the queue and of the pagination below it; and the
-- slide-over.
pub record Around : Type 0 where
  pub banner : Option Bool
  pub rows : List EventWithTriage
  pub table : List String
  pub panel : Option PanelState

abbrev pub others : List String → List PageButton
others texts = map (λ t. record { text_content = t; disabled = false; click = elsewhere }) texts

-- The button of web/src/components/Layout/ConnectionBanner.tsx.
unfoldable pub banner_buttons : Option Bool → List PageButton
banner_buttons none = []
banner_buttons (some is_fetching) =
    record {
      text_content = if is_fetching then "Retrying" else "Retry now";
      disabled = is_fetching;
      click = elsewhere;
    }
    ∷ []

unfoldable pub panel_actions : (current : TriageStatus) (is_pending : Bool) → List PageButton
panel_actions current is_pending =
    map (λ b. record { text_content = b.label; disabled = b.disabled; click = sets_status b.sets })
      (action_buttons current is_pending)

-- The buttons of the slide-over stand at the end of the document, where its portal is.
unfoldable pub panel_buttons : Option PanelState → List PageButton
unfolding panel_actions
panel_buttons none = []
panel_buttons (some p) = others p.above ++ (panel_actions p.current p.is_pending ++ others p.below)

abbrev pub has_label : String → PageButton → Bool
has_label label b = (trim b.text_content == label) && not b.disabled

abbrev pub clicked : Option PageButton → Option Click
clicked none = none
clicked (some b) = some b.click

-- The first button of this text that can be pressed.
unfoldable pub trigger_status_button : (label : String) → List PageButton → Option Click
trigger_status_button label buttons = clicked (find (has_label label) buttons)

-- What the page does beyond its own state.
pub data Did : Type 0 where
  nothing focused_assign focused_note focused_search : Did
  pressed : Click → Did
  navigated : (to : String) → Did

pub record Handled : Type 0 where
  pub page : Page
  pub did : Did

-- A click through the keyboard.
unfoldable pub after_click : Page → Option Click → Handled
after_click p none = record { page = p; did = nothing }
after_click p (some (changes c)) = record {
  page = record p { search = set_search p.search c };
  did = pressed (changes c);
}
after_click p (some c) = record { page = p; did = pressed c }

abbrev quiet : Page → Handled
quiet p = record { page = p; did = nothing }

-- The search of a URL without one.
abbrev no_search : AlertsSearch
no_search = record {
  min_bucket = none;
  triage_statuses = none;
  since = none;
  query = none;
  alert = none;
  sort = none;
}

-- `navigate({ to })`, without a search: on the way to the alerts page this drops the filter, the
-- order and the open alert, and any other way leaves the page with its state.
unfoldable pub navigate : (to : String) → Page → Handled
navigate to p = record {
  page = record {
    path = to;
    search = no_search;
    cheatsheet_open = (to == "/alerts") && p.cheatsheet_open;
  };
  did = navigated to;
}

-- The bindings of the page.
pub data Binding : Type 0 where
  down up escape enter assign_field note_field acknowledge resolve investigate : Binding
  search_field help : Binding
  go : (to : String) → Binding

abbrev pub bindings : List (String × Binding)
bindings =
    ("j", down)
    ∷ ("ArrowDown", down)
    ∷ ("k", up)
    ∷ ("ArrowUp", up)
    ∷ ("Escape", escape)
    ∷ ("Enter", enter)
    ∷ ("a", assign_field)
    ∷ ("n", note_field)
    ∷ ("c", acknowledge)
    ∷ ("r", resolve)
    ∷ ("i", investigate)
    ∷ ("/", search_field)
    ∷ ("?", help)
    ∷ ("g a", go "/alerts")
    ∷ ("g f", go "/fleet")
    ∷ ("g s", go "/settings")
    ∷ []

-- `handlers[key]`
abbrev pub own {ℓ} : {A : Type ℓ} → String → List (String × A) → Option A
own key [] = none
own key ((k, v) ∷ rest) = let more = own key rest in if k == key then some v else more

unfoldable pub binding_of : String → Option Binding
binding_of key = own key bindings

module _ (iso : ℕ → String) (parse : String → Option ℕ) (now : ℕ) where
  unfoldable pub chip_buttons : Page → List PageButton
  chip_buttons p =
      map (λ c. record { text_content = c.label; disabled = false; click = changes c.change })
        (chips iso parse now (filter_of p.search))

  -- The buttons of the document, in its order: logging out, the banner, the hint of the shortcuts,
  -- the filter row, the queue with the pagination, and the slide-over.
  unfoldable pub page_buttons : Around → Page → List PageButton
  page_buttons a p =
      others ("" ∷ [])
      ++ (banner_buttons a.banner
          ++ (others ("? shortcuts" ∷ [])
              ++ (chip_buttons p ++ (others a.table ++ panel_buttons a.panel))))

  -- What a handler does.
  unfoldable pub handle : Binding → Around → Page → Handled
  unfolding page_buttons navigate
  handle down a p = quiet (record p { search = move_cursor a.rows (pos 1) p.search })
  handle up a p = quiet (record p { search = move_cursor a.rows (negsuc 0) p.search })
  handle escape a p = quiet (on_escape p)
  handle enter a p = quiet (record p { search = on_enter a.rows p.search })
  handle assign_field a p = record { page = p; did = focused_assign }
  handle note_field a p = record { page = p; did = focused_note }
  handle acknowledge a p = after_click p (trigger_status_button "Acknowledge" (page_buttons a p))
  handle resolve a p = after_click p (trigger_status_button "Resolve" (page_buttons a p))
  handle investigate a p = after_click p (trigger_status_button "Investigating" (page_buttons a p))
  handle search_field a p = record { page = p; did = focused_search }
  handle help a p = quiet (record p { cheatsheet_open = true })
  handle (go to) a p = navigate to p

  -- A key, or two with the leader: what its handler does, if it has one.
  unfoldable pub on_key : String → Around → Page → Option Handled
  unfolding handle
  on_key key a p = elim (binding_of key) [ none ↦ none | some b ↦ some (handle b a p) ]

-- The rows of the cheatsheet: what a key does, and the keys as they are printed.
abbrev pub shortcuts : List (String × String)
shortcuts =
    ("Move selection down", "j  /  ↓")
    ∷ ("Move selection up", "k  /  ↑")
    ∷ ("Open selected alert", "Enter")
    ∷ ("Close slide-over", "Esc")
    ∷ ("Acknowledge", "c")
    ∷ ("Resolve", "r")
    ∷ ("Set Investigating", "i")
    ∷ ("Assign (focus field)", "a")
    ∷ ("Add note", "n")
    ∷ ("Focus search", "/")
    ∷ ("Go to Alerts", "g a")
    ∷ ("Go to Fleet", "g f")
    ∷ ("Go to Settings", "g s")
    ∷ ("Show shortcuts", "?")
    ∷ []
