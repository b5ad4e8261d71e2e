-- ===== src/Triage/Panel/Assignee.antt =====
-- The assignee field of the slide-over (web/src/components/AlertsQueue/SlideOver.tsx) with the row
-- that it writes (internal/triage/repo.go).
use sigil_manager.Prelude.{
  String, Bool, true, false, Option, none, some, ◌≡◌, refl, sym, ap, ◌∙◌, inl, inr, Bool-cases,
  eq_iff, eq_refl, arith, ◌⊎◌, ◌≢◌, if◌then◌else◌, ◌==◌, string_eq, trim, trim_idem,
}
use sigil_manager.Api.Triage.{UpsertPayload}
use sigil_manager.Api.Fleet.{EventWithTriage, Evidence}
use sigil_manager.Triage.{on_assign}

-- The draft, whether the field has the focus, and the assignee that the effect has run for: none
-- without the detail of the alert.
pub record AssigneeField : Type 0 where
  pub draft : String
  pub is_focused : Bool
  pub seen : Option (Option String)

abbrev or_empty : Option String → String
or_empty none = ""
or_empty (some name) = name

-- `===` on what the effect depends on.
abbrev same_assignee : Option (Option String) → Option (Option String) → Bool
same_assignee none none = true
same_assignee (some none) (some none) = true
same_assignee (some (some a)) (some (some b)) = a == b
same_assignee _ _ = false

-- `triage.data?.row.assignee ?? ''`
abbrev text_of : Option (Option String) → String
text_of none = ""
text_of (some assignee) = or_empty assignee

-- The effect: it runs when the assignee is another than before, and what is being typed stays.
unfoldable pub on_server_assignee : Option (Option String) → AssigneeField → AssigneeField
on_server_assignee assignee f =
    if same_assignee f.seen assignee
    then f
    else if f.is_focused
    then record f { seen = assignee }
    else record f { draft = text_of assignee; seen = assignee }

unfoldable pub on_assignee_change : String → AssigneeField → AssigneeField
on_assignee_change text f = record f { draft = text }

abbrev pub is_set : Option Bool → Bool
is_set none = false
is_set (some b) = b

-- The assignee of a row that is there, after a write that the server accepts.
unfoldable pub updated_assignee : Option String → UpsertPayload (Option Evidence) → Option String
updated_assignee existing payload =
    if is_set payload.clear_assignee
    then none
    else (elim payload.assignee [ none ↦ existing | some name ↦ some name ])

-- Who is assigned, by the draft alone.
abbrev named : String → Option String
named draft = if trim draft == "" then none else some (trim draft)

assigned :
    (event : EventWithTriage) (has_row : Bool) (draft : String) (existing : Option String)
    → updated_assignee existing (on_assign event has_row draft) ≡ named draft
unfolding updated_assignee on_assign
assigned event has_row draft existing = elim (Bool-cases (trim draft == "")) [
  | inl empty ↦ rw empty refl
  | inr given ↦ rw given refl
]

or_empty-named : (draft : String) → or_empty (named draft) ≡ trim draft
or_empty-named draft = elim (Bool-cases (trim draft == "")) [
  | inl empty ↦ rw empty (sym ((eq_iff (trim draft) "").0 empty))
  | inr given ↦ rw given refl
]

named-trim : (draft : String) → named (trim draft) ≡ named draft
named-trim draft = rw (trim_idem draft) refl

same_assignee_refl : (a : Option (Option String)) → same_assignee a a ≡ true
same_assignee_refl none = refl
same_assignee_refl (some none) = refl
same_assignee_refl (some (some a)) = eq_refl a

same_assignee_eq : (a b : Option (Option String)) → same_assignee a b ≡ true → a ≡ b
same_assignee_eq none none h = refl
same_assignee_eq none (some b) h = absurd (ground arith)
same_assignee_eq (some none) none h = absurd (ground arith)
same_assignee_eq (some none) (some none) h = refl
same_assignee_eq (some none) (some (some b)) h = absurd (ground arith)
same_assignee_eq (some (some a)) none h = absurd (ground arith)
same_assignee_eq (some (some a)) (some none) h = absurd (ground arith)
same_assignee_eq (some (some a)) (some (some b)) h = ap (λ n. some (some n)) ((eq_iff a b).0 h)

-- What the effect leaves in the field: what stands in it, where it is being typed or the effect does
-- not run, and else the assignee.
taken_up :
    (assignee : Option String) (f : AssigneeField)
    → let after = on_server_assignee (some assignee) f in
      ((after.draft ≡ or_empty assignee) × (f.is_focused ≡ false) × (f.seen ≢ some assignee))
      ⊎ ((after.draft ≡ f.draft) × ((f.is_focused ≡ true) ⊎ (f.seen ≡ some assignee)))
unfolding on_server_assignee
taken_up assignee f = elim (Bool-cases (same_assignee f.seen (some assignee))) [
  | inl same ↦ inr (rw same refl, inr (same_assignee_eq f.seen (some assignee) same))
  | inr other ↦ elim (Bool-cases f.is_focused) [
    | inl typing ↦ inr (rw (other, typing) refl, inl typing)
    | inr free ↦ inl (
      rw (other, free) refl,
      free,
      λ same.
          let clash : same_assignee f.seen (some assignee) ≡ true =
            ap (λ a. same_assignee a (some assignee)) same ∙ same_assignee_refl (some assignee) in
          absurd (ground (arith, clash, other)),
    )
  ]
]

-- Whatever is typed and whoever was assigned, once the server has accepted the assignment and the
-- detail is there again, the field shows the draft without its outer space, if it does not have the
-- focus and this is not the assignee from before, and else the draft as it was typed. Assigning what
-- the field then shows keeps the assignee of the row.
pub on_assign-shown :
    (event : EventWithTriage) (has_row : Bool) (existing : Option String) (f : AssigneeField)
    → let saved = updated_assignee existing (on_assign event has_row f.draft) in
      let shown = on_server_assignee (some saved) f in
      (((shown.draft ≡ trim f.draft) × (f.is_focused ≡ false) × (f.seen ≢ some saved))
        ⊎ ((shown.draft ≡ f.draft) × ((f.is_focused ≡ true) ⊎ (f.seen ≡ some saved))))
      × (updated_assignee saved (on_assign event true shown.draft) ≡ saved)
on_assign-shown event has_row existing f =
    let saved = updated_assignee existing (on_assign event has_row f.draft) in
    let first = assigned event has_row f.draft existing in
    let text : or_empty saved ≡ trim f.draft = ap or_empty first ∙ or_empty-named f.draft in
    elim (taken_up saved f) [
      | inl (taken, free, changed) ↦
          let shown = taken ∙ text in
          (
            inl (shown, free, changed),
            assigned event true _ saved ∙ ap named shown ∙ named-trim f.draft ∙ sym first,
          )
      | inr (kept, why) ↦ (inr (kept, why), assigned event true _ saved ∙ ap named kept ∙ sym first)
    ]
