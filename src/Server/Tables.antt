-- ===== src/Server/Tables.antt =====
-- The tables of internal/triage/schema.go under the writes of internal/triage/repo.go.
use sigil_manager.Prelude.{
  suc, String, Bool, true, false, Option, none, some, List, [], ◌∷◌, ◌++◌, ◌≡◌, refl, ap, inl, inr,
  arith, if◌then◌else◌, string_eq, eq_iff, eq_refl, map, length, filter, find, any, All, Bool-cases,
}
use sigil_manager.Server.{Row, is_row}
use sigil_manager.Server.Action.{set_columns}

module _ {ℓ} {A : Type ℓ} where
  pub find-append_none :
      (p : A → Bool) (xs ys : List A) → find p xs ≡ none → find p (xs ++ ys) ≡ find p ys
  find-append_none p [] ys h = refl
  find-append_none p (x ∷ xs) ys h = ground (arith, find-append_none p xs ys)

  pub find-append_some :
      (p : A → Bool) (xs ys : List A) (a : A) → find p xs ≡ some a → find p (xs ++ ys) ≡ some a
  find-append_some p [] ys a h = absurd cc
  find-append_some p (x ∷ xs) ys a h = ground (arith, find-append_some p xs ys a)

  -- An element that fails the test is found by no search for it.
  pub find-append_other :
      (p : A → Bool) (xs : List A) (y : A) → p y ≡ false → find p (xs ++ (y ∷ [])) ≡ find p xs
  find-append_other p [] y h = rw h refl
  find-append_other p (x ∷ xs) y h = ground (arith, find-append_other p xs y h)

  pub filter-append_other :
      (p : A → Bool) (xs : List A) (y : A) → p y ≡ false → filter p (xs ++ (y ∷ [])) ≡ filter p xs
  filter-append_other p [] y h = rw h refl
  filter-append_other p (x ∷ xs) y h = ground (arith, filter-append_other p xs y h)

  pub filter-append_one :
      (p : A → Bool) (xs : List A) (y : A)
      → p y ≡ true
      → filter p (xs ++ (y ∷ [])) ≡ filter p xs ++ (y ∷ [])
  filter-append_one p [] y h = rw h refl
  filter-append_one p (x ∷ xs) y h = ground (arith, filter-append_one p xs y h)

  pub filter-nil : (p : A → Bool) (xs : List A) → find p xs ≡ none → filter p xs ≡ []
  filter-nil p [] h = refl
  filter-nil p (x ∷ xs) h = ground (arith, filter-nil p xs)

  pub find-holds : (p : A → Bool) (xs : List A) (a : A) → find p xs ≡ some a → p a ≡ true
  find-holds p [] a h = absurd cc
  find-holds p (x ∷ xs) a h = ground (arith, find-holds p xs a)

  pub any-append_left : (p : A → Bool) (xs ys : List A) → any p xs ≡ true → any p (xs ++ ys) ≡ true
  any-append_left p [] ys h = absurd (ground arith)
  any-append_left p (x ∷ xs) ys h = ground (arith, any-append_left p xs ys)

  pub any-find : (p : A → Bool) (xs : List A) (a : A) → find p xs ≡ some a → any p xs ≡ true
  any-find p [] a h = absurd cc
  any-find p (x ∷ xs) a h = ground (arith, any-find p xs a)

pub All-mono {ℓ} :
    {A : Type ℓ} (P Q : A → Type 0) (xs : List A) → ((x : A) → P x → Q x) → All P xs → All Q xs
All-mono P Q [] f h = tt
All-mono P Q (x ∷ xs) f h = (f x h.0, All-mono P Q xs f h.1)

abbrev pub when_some {ℓ κ} : {A : Type ℓ} {B : Type κ} → (A → B) → Option A → Option B
when_some f none = none
when_some f (some a) = some (f a)

-- The key is what the tests of it compare with.
pub is_row-key : (h e : String) (r : Row) → is_row h e r ≡ true → (r.host_id ≡ h) × (r.event_id ≡ e)
is_row-key h e r t = ground (arith, eq_iff r.host_id h, eq_iff r.event_id e)

module _ (u : Row) (h e : String) where
  pub is_row-set_columns : (r : Row) → is_row h e (set_columns u r) ≡ is_row h e r
  is_row-set_columns r = elim (Bool-cases (is_row u.host_id u.event_id r)) [
    | inl same ↦ rw same refl
    | inr other ↦ rw other refl
  ]

  pub find-set_columns :
      (rows : List Row)
      → find (is_row h e) (map (set_columns u) rows)
        ≡ when_some (set_columns u) (find (is_row h e) rows)
  find-set_columns [] = refl
  find-set_columns (r ∷ rows) = elim (Bool-cases (is_row h e r)) [
    | inl here ↦ rw (is_row-set_columns r, here) refl
    | inr other ↦ rw (is_row-set_columns r, other) (find-set_columns rows)
  ]

  pub any-set_columns :
      (rows : List Row) → any (is_row h e) (map (set_columns u) rows) ≡ any (is_row h e) rows
  any-set_columns [] = refl
  any-set_columns (r ∷ rows) = rw (is_row-set_columns r, any-set_columns rows) refl

  pub filter-set_columns :
      (rows : List Row)
      → length (filter (is_row h e) (map (set_columns u) rows)) ≡ length (filter (is_row h e) rows)
  filter-set_columns [] = refl
  filter-set_columns (r ∷ rows) = elim (Bool-cases (is_row h e r)) [
    | inl here ↦ rw (is_row-set_columns r, here) (ap suc (filter-set_columns rows))
    | inr other ↦ rw (is_row-set_columns r, other) (filter-set_columns rows)
  ]

  -- A write of one row is not seen where another key is looked for.
  pub find-set_columns_other :
      (rows : List Row)
      → is_row h e u ≡ false
      → find (is_row h e) (map (set_columns u) rows) ≡ find (is_row h e) rows
  find-set_columns_other [] other = refl
  find-set_columns_other (r ∷ rows) other = elim (Bool-cases (is_row u.host_id u.event_id r)) [
    | inr foreign ↦
        rw foreign
          (ap (λ rest. if is_row h e r then some r else rest) (find-set_columns_other rows other))
    | inl same ↦
        let (host, event) = is_row-key u.host_id u.event_id r same in
        let elsewhere : is_row h e r ≡ false = rw (host, event) other in
        rw (is_row-set_columns r, elsewhere) (find-set_columns_other rows other)
  ]

pub is_row_self : (r : Row) → is_row r.host_id r.event_id r ≡ true
is_row_self r = ground (arith, eq_refl r.host_id, eq_refl r.event_id)
