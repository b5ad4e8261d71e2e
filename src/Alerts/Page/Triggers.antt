-- ===== src/Alerts/Page/Triggers.antt =====
-- What the keys c, r and i press: each looks for the first button of the document with its label.
use sigil_manager.Prelude.{
  ℕ, String, Bool, true, false, Option, none, some, List, [], ◌∷◌, ◌++◌, ◌≡◌, refl, ap, ◌∙◌, arith,
  if◌then◌else◌, ◌==◌, string_eq, All, trim, find, find-skip,
}
use sigil_manager.Api.Triage.{TriageStatus, acknowledged, investigating, resolved}
use sigil_manager.Alerts.Search.{
  SearchChange, no_change, assign, filter_of, set_search, toggle_status,
}
use sigil_manager.Triage.Panel.{action_buttons}
use sigil_manager.Alerts.Chips.{chips}
use sigil_manager.Alerts.Keyboard.{Page}
use sigil_manager.Alerts.Page.{
  Click, changes, sets_status, PanelState, Around, Did, nothing, pressed, on_key, PageButton,
  others, has_label, clicked, banner_buttons, panel_actions, panel_buttons, chip_buttons,
  page_buttons, trigger_status_button, after_click, binding_of,
}

-- The change that a click on the status chip "Investigating" makes.
abbrev pub chip_of_investigating : Page → SearchChange
chip_of_investigating p = record no_change {
  triage_statuses =
      assign (some (toggle_status investigating (filter_of p.search).triage_statuses));
}

-- None of these texts is the label.
abbrev pub Lacks : String → List String → Type 0
Lacks label texts = All (λ t. (trim t == label) ≡ false) texts

Lacks-others :
    (label : String) (texts : List String)
    → Lacks label texts
    → All (λ b. has_label label b ≡ false) (others texts)
Lacks-others label [] h = tt
Lacks-others label (t ∷ texts) h = (rw h.0 refl, Lacks-others label texts h.1)

find-others :
    (label : String) (texts : List String) (rest : List PageButton)
    → Lacks label texts
    → find (has_label label) (others texts ++ rest) ≡ find (has_label label) rest
find-others label texts rest h =
    find-skip (has_label label) (others texts) rest (Lacks-others label texts h)

-- The buttons that have no label of a status, above the table.
banner-Lacks :
    (label : String) (banner : Option Bool)
    → Lacks label ("Retrying" ∷ "Retry now" ∷ [])
    → All (λ b. has_label label b ≡ false) (banner_buttons banner)
unfolding banner_buttons
banner-Lacks label none h = tt
banner-Lacks label (some true) h = (rw h.0 refl, tt)
banner-Lacks label (some false) h = (rw h.1.0 refl, tt)

-- No other button of a slide-over has this label.
abbrev pub LacksPanel : String → Option PanelState → Type 0
LacksPanel label none = Unit
LacksPanel label (some q) = Lacks label q.above × Lacks label q.below

-- No other button of the queue and of the slide-over has this label.
abbrev pub IsPlainPage : String → Around → Type 0
IsPlainPage label a = Lacks label a.table × LacksPanel label a.panel

-- What an action does in the slide-over.
abbrev pub writes : TriageStatus → Option PanelState → Did
writes s none = nothing
writes s (some q) = if q.is_pending then nothing else pressed (sets_status s)

abbrev written_by : TriageStatus → Option PanelState → Option Click
written_by s none = none
written_by s (some q) = if q.is_pending then none else some (sets_status s)

find-nothing :
    (label : String) (texts : List String)
    → Lacks label texts
    → find (has_label label) (others texts) ≡ none
find-nothing label [] h = refl
find-nothing label (t ∷ texts) h = ground (arith, h.0, find-nothing label texts h.1)

did_of :
    (s : TriageStatus) (p : Page) (q : Option PanelState)
    → after_click p (written_by s q) ≡ record { page = p; did = writes s q }
unfolding after_click
did_of s p none = refl
did_of s p (some q) = ground arith

module _ (iso : ℕ → String) (parse : String → Option ℕ) (now : ℕ) where
  -- On any page, and with any alert open, the key i clicks the chip "Investigating" of the filter
  -- row, which stands before the slide-over in the document: it turns that status over in the filter
  -- and sets the status of no alert.
  pub on_key-investigating :
      (a : Around) (p : Page)
      → on_key iso parse now "i" a p
        ≡ some (record {
          page = record p { search = set_search p.search (chip_of_investigating p) };
          did = pressed (changes (chip_of_investigating p));
        })
  unfolding on_key binding_of trigger_status_button trim after_click chip_buttons chips
  on_key-investigating a p =
      let skipped =
        find-skip (has_label "Investigating") (banner_buttons a.banner)
          (others ("? shortcuts" ∷ [])
            ++ (chip_buttons iso parse now p ++ (others a.table ++ panel_buttons a.panel)))
          (banner-Lacks "Investigating" a.banner (refl, (refl, tt))) in
      ap (λ found. some (after_click p (clicked found))) skipped

  -- The first button with a label that no chip has is one of the slide-over.
  find-panel :
      (label : String) (a : Around) (p : Page)
      → Lacks label ("" ∷ "Retrying" ∷ "Retry now" ∷ "? shortcuts" ∷ [])
      → All (λ b. has_label label b ≡ false) (chip_buttons iso parse now p)
      → Lacks label a.table
      → find (has_label label) (page_buttons iso parse now a p)
        ≡ find (has_label label) (panel_buttons a.panel)
  unfolding page_buttons
  find-panel label a p (logout, (retrying, (retry, (hint, _)))) plain table =
      find-others label ("" ∷ []) _ (logout, tt)
      ∙ find-skip (has_label label) (banner_buttons a.banner) _
          (banner-Lacks label a.banner (retrying, (retry, tt)))
      ∙ find-others label ("? shortcuts" ∷ []) _ (hint, tt)
      ∙ find-skip (has_label label) (chip_buttons iso parse now p) _ plain
      ∙ find-others label a.table (panel_buttons a.panel) table

  -- An action whose label stands only in the slide-over.
  module _ (label : String) (s : TriageStatus)
      (idle : (current : TriageStatus) (rest : List PageButton)
        → clicked (find (has_label label) (panel_actions current false ++ rest))
          ≡ some (sets_status s))
      (busy : (current : TriageStatus) (rest : List PageButton)
        → find (has_label label) (panel_actions current true ++ rest) ≡ find (has_label label) rest)
      (lead : Lacks label ("" ∷ "Retrying" ∷ "Retry now" ∷ "? shortcuts" ∷ []))
      (plain : (p : Page)
        → All (λ b. has_label label b ≡ false) (chip_buttons iso parse now p)) where
    panel_click :
        (q : Option PanelState)
        → LacksPanel label q
        → clicked (find (has_label label) (panel_buttons q)) ≡ written_by s q
    unfolding panel_buttons
    panel_click none h = refl
    panel_click (some q) (above, below) =
        let past = ap clicked (
          find-others label q.above (panel_actions q.current q.is_pending ++ others q.below)
            above) in
        past
        ∙ elim q.is_pending
            as (λ b.
              clicked (find (has_label label) (panel_actions q.current b ++ others q.below))
              ≡ (if b then none else some (sets_status s))) [
                | true ↦
                    ap clicked (busy q.current (others q.below) ∙ find-nothing label q.below below)
                | false ↦ idle q.current (others q.below)
              ]

    acts :
        (a : Around) (p : Page)
        → IsPlainPage label a
        → after_click p (trigger_status_button label (page_buttons iso parse now a p))
          ≡ record { page = p; did = writes s a.panel }
    unfolding trigger_status_button
    acts a p (table, panel) =
        ap (λ found. after_click p (clicked found)) (find-panel label a p lead (plain p) table)
        ∙ ap (after_click p) (panel_click a.panel panel)
        ∙ did_of s p a.panel

  -- Where no other button of the queue and of the slide-over has the label of the action, the key c
  -- acknowledges the open alert, and r resolves it, if no write is under way; without an open alert,
  -- or during a write, they do nothing. The page stays as it is.
  pub on_key-actions :
      (a : Around) (p : Page)
      → IsPlainPage "Acknowledge" a
      → IsPlainPage "Resolve" a
      → (on_key iso parse now "c" a p
          ≡ some (record { page = p; did = writes acknowledged a.panel }))
        × (on_key iso parse now "r" a p ≡ some (record { page = p; did = writes resolved a.panel }))
  unfolding on_key binding_of trigger_status_button trim chip_buttons chips panel_actions
      action_buttons
  on_key-actions a p h k = (
    ap some (
        acts "Acknowledge" acknowledged (λ current rest. refl) (λ current rest. refl)
          (refl, (refl, (refl, (refl, tt)))) (λ p. ground arith) a p h),
    ap some (
        acts "Resolve" resolved (λ current rest. refl) (λ current rest. refl)
          (refl, (refl, (refl, (refl, tt)))) (λ p. ground arith) a p k),
  )
