-- ===== src/Prelude/Sort/Names.antt =====
-- What a sort leaves of a list whose elements have names.
use Prim.Native.String.{String}
use mathlib.Core.Path.{◌≡◌, refl, ◌∙◌, ap}
use mathlib.Core.Bool.{Bool, false, ◌||◌}
use mathlib.Core.Logic.{inl, inr}
use mathlib.Core.Option.{some}
use mathlib.Core.List.{List, [], ◌∷◌, map}
use native.Mathlib.Omega.{arith}
use text.Mathlib.TextEquality.{eq_iff}
use sigil_manager.Prelude.Tests.{if◌then◌else◌, Bool-cases}
use sigil_manager.Prelude.Classes.{string_eq, ◌==◌}
use sigil_manager.Prelude.Lists.{find, includes, Distinct}
use sigil_manager.Prelude.Sort.{insert_sorted, sort}

module _ {ℓ} {A : Type ℓ} (name : A → String) (after : A → A → Bool) where
  names : List A → List String
  names = map name

  includes-insert_sorted :
      (x : A) (l : List A) (k : String)
      → includes (map name (insert_sorted after x l)) k ≡ (name x == k || includes (map name l) k)
  unfolding insert_sorted
  includes-insert_sorted x [] k = refl
  includes-insert_sorted x (y ∷ ys) k = ground (arith, includes-insert_sorted x ys k)

  pub includes-sort :
      (l : List A) (k : String) → includes (map name (sort after l)) k ≡ includes (map name l) k
  unfolding sort
  includes-sort [] k = refl
  includes-sort (x ∷ l) k =
      includes-insert_sorted x (sort after l) k ∙ ap (λ b. name x == k || b) (includes-sort l k)

  Distinct-insert_sorted :
      (x : A) (l : List A)
      → includes (map name l) (name x) ≡ false
      → Distinct (map name l)
      → Distinct (map name (insert_sorted after x l))
  unfolding insert_sorted
  Distinct-insert_sorted x [] h d = (refl, tt)
  Distinct-insert_sorted x (y ∷ ys) h d = elim (Bool-cases (after x y)) [
    | inr first ↦ rw (first, insert_sorted) (h, d)
    | inl late ↦
        rw (late, insert_sorted)
          (
            includes-insert_sorted x ys (name y)
                ∙ ground (arith, h, d.0, eq_iff (name x) (name y), eq_iff (name y) (name x)),
            Distinct-insert_sorted x ys (ground arith) d.1,
          )
  ]

  -- A list without a name twice has none twice after sorting.
  pub Distinct-sort : (l : List A) → Distinct (map name l) → Distinct (map name (sort after l))
  unfolding sort
  Distinct-sort [] d = tt
  Distinct-sort (x ∷ l) (fresh, d) =
      Distinct-insert_sorted x (sort after l) (includes-sort l (name x) ∙ fresh) (Distinct-sort l d)

  find-insert_sorted :
      (x : A) (l : List A) (k : String)
      → includes (map name l) (name x) ≡ false
      → find (λ a. name a == k) (insert_sorted after x l) ≡ find (λ a. name a == k) (x ∷ l)
  unfolding insert_sorted
  find-insert_sorted x [] k h = refl
  find-insert_sorted x (y ∷ ys) k h = ground (
    arith,
    find-insert_sorted x ys k,
    eq_iff (name x) k,
    eq_iff (name y) k,
    eq_iff (name y) (name x),
  )

  -- Where no name stands twice, a name is found before and after sorting alike.
  pub find-sort :
      (l : List A) (k : String)
      → Distinct (map name l)
      → find (λ a. name a == k) (sort after l) ≡ find (λ a. name a == k) l
  unfolding sort
  find-sort [] k d = refl
  find-sort (x ∷ l) k (fresh, d) =
      find-insert_sorted x (sort after l) k (includes-sort l (name x) ∙ fresh)
      ∙ ap (λ rest. if name x == k then some x else rest) (find-sort l k d)
