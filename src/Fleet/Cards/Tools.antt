-- ===== src/Fleet/Cards/Tools.antt =====
-- No tool of a host is lost between the cards and the quiet strip.
use mathlib.Core.List.{Perm, perm_middle}
use mathlib.Core.List.Perm
use sigil_manager.Prelude.{
  String, Bool, true, List, [], ◌∷◌, ◌++◌, ◌≡◌, not, filter, All, All-filter_self, Bool-cases, inl,
  inr, Number, string_eq,
}
use sigil_manager.Prelude.Sort.{IsConsistent, IsSorted, sort-perm, sort-IsSorted}
use sigil_manager.Api.Fleet.{ToolAiGuard}
use sigil_manager.Fleet.Cards.{is_quiet, risky_tools, quiet_tools}

-- A list is rearranged into what a test drops and what it keeps.
filter-perm :
    {A : Type 0} (p : A → Bool) (xs : List A) → Perm (filter (λ x. not (p x)) xs ++ filter p xs) xs
filter-perm p [] = Perm.rfl
filter-perm p (x ∷ xs) = elim (Bool-cases (p x)) [
  | inl kept ↦ rw kept (
      Perm.trans (perm_middle (filter (λ y. not (p y)) xs) (filter p xs))
        (Perm.cons x (filter-perm p xs)))
  | inr dropped ↦ rw dropped (Perm.cons x (filter-perm p xs))
]

module _ (below : Number → Number → Bool) where
  abbrev pub scored : String × ToolAiGuard → String × ToolAiGuard → Bool
  scored a b = below a.1.score b.1.score

  -- If the scores are compared consistently, every tool of a host has one place, in a card or in
  -- the quiet strip; the cards come with the highest score first, and the strip has only tools of
  -- the low bucket.
  pub risky_tools-quiet_tools :
      (tools : List (String × ToolAiGuard))
      → IsConsistent scored
      → Perm (risky_tools below tools ++ quiet_tools tools) tools
        × IsSorted scored (risky_tools below tools)
        × All (λ tool. is_quiet tool ≡ true) (quiet_tools tools)
  unfolding risky_tools quiet_tools
  risky_tools-quiet_tools tools c = (
    Perm.trans
        (Perm.append_right (filter is_quiet tools)
          (sort-perm scored (filter (λ tool. not (is_quiet tool)) tools)))
        (filter-perm is_quiet tools),
    sort-IsSorted scored c (filter (λ tool. not (is_quiet tool)) tools),
    All-filter_self is_quiet tools,
  )
