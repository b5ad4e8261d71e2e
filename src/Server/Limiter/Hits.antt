-- ===== src/Server/Limiter/Hits.antt =====
-- The map of internal/api/v1/ratelimit.go under its writes.
use sigil_manager.Prelude.{
  ℕ, String, Bool, true, false, not, none, some, List, [], ◌∷◌, ◌≡◌, ◌⊎◌, refl, inl, inr, arith,
  eq_iff, ltb, ◌==◌, string_eq, filter, length, includes, Distinct, map, Bool-cases,
}
use sigil_manager.Server.Limiter.{HitWindow, Hits, get_hit, set_hit, is_over, prune}

abbrev pub keys : Hits → List String
keys = map (λ h. h.0)

-- No address stands twice.
abbrev pub IsMap : Hits → Type 0
IsMap hits = Distinct (keys hits)

module _ (p : String × HitWindow → Bool) where
  includes-filter :
      (hits : Hits) (k : String)
      → includes (keys hits) k ≡ false
      → includes (keys (filter p hits)) k ≡ false
  includes-filter [] k h = refl
  includes-filter (x ∷ hits) k h = ground (arith, includes-filter hits k)

  filter-IsMap : (hits : Hits) → IsMap hits → IsMap (filter p hits)
  filter-IsMap [] h = tt
  filter-IsMap (x ∷ hits) (fresh, h) = elim (Bool-cases (p x)) [
    | inl kept ↦ rw kept (includes-filter hits x.0 fresh, filter-IsMap hits h)
    | inr dropped ↦ rw dropped (filter-IsMap hits h)
  ]

includes-remove :
    (hits : Hits) (k : String) → includes (keys (filter (λ h. not (h.0 == k)) hits)) k ≡ false
includes-remove [] k = refl
includes-remove (x ∷ hits) k = ground (arith, includes-remove hits k)

pub set_hit-IsMap :
    (k : String) (w : HitWindow) (hits : Hits) → IsMap hits → IsMap (set_hit k w hits)
set_hit-IsMap k w hits h = (includes-remove hits k, filter-IsMap (λ h. not (h.0 == k)) hits h)

pub prune-IsMap : (now : ℕ) (hits : Hits) → IsMap hits → IsMap (prune now hits)
prune-IsMap now hits h = elim (Bool-cases (ltb 1024 (length hits))) [
  | inl many ↦ rw many (filter-IsMap (λ h. not (is_over now h.1)) hits h)
  | inr few ↦ rw few h
]

pub get_hit-own :
    (key k : String) (w : HitWindow) (hits : Hits)
    → (key == k) ≡ true
    → get_hit k (set_hit key w hits) ≡ some w
get_hit-own key k w hits own = rw own refl

get_hit-remove :
    (k other : String) (hits : Hits)
    → (other == k) ≡ false
    → get_hit k (filter (λ h. not (h.0 == other)) hits) ≡ get_hit k hits
get_hit-remove k other [] h = refl
get_hit-remove k other (x ∷ hits) h =
    ground (arith, get_hit-remove k other hits h, eq_iff x.0 other, eq_iff x.0 k, eq_iff other k)

pub get_hit-other :
    (k other : String) (w : HitWindow) (hits : Hits)
    → (other == k) ≡ false
    → get_hit k (set_hit other w hits) ≡ get_hit k hits
get_hit-other k other w hits h = rw h (get_hit-remove k other hits h)

get_hit-absent :
    (p : String × HitWindow → Bool) (k : String) (hits : Hits)
    → includes (keys hits) k ≡ false
    → get_hit k (filter p hits) ≡ none
get_hit-absent p k [] h = refl
get_hit-absent p k (x ∷ hits) h = ground (arith, get_hit-absent p k hits)

kept_in :
    (now : ℕ) (k : String) (w : HitWindow) (hits : Hits)
    → get_hit k hits ≡ some w
    → is_over now w ≡ false
    → get_hit k (filter (λ h. not (is_over now h.1)) hits) ≡ some w
kept_in now k w [] h runs = absurd cc
kept_in now k w (x ∷ hits) h runs = elim (Bool-cases (x.0 == k)) [
  | inl here ↦ let same : x.1 ≡ w = first (rw here at h) in rw (same, runs, here) refl
  | inr other ↦
      let deeper = kept_in now k w hits (rw other at h) runs in
      elim (Bool-cases (is_over now x.1)) [
        | inl over ↦ rw over deeper
        | inr stays ↦ rw (stays, other) deeper
      ]
]
  where
    first : some x.1 ≡ some w → x.1 ≡ w
    first e = cc

-- A window that is not over is not pruned.
pub get_hit-prune_running :
    (now : ℕ) (k : String) (w : HitWindow) (hits : Hits)
    → get_hit k hits ≡ some w
    → is_over now w ≡ false
    → get_hit k (prune now hits) ≡ some w
get_hit-prune_running now k w hits h runs = elim (Bool-cases (ltb 1024 (length hits))) [
  | inl many ↦ rw many (kept_in now k w hits h runs)
  | inr few ↦ rw few h
]

filtered :
    (p : String × HitWindow → Bool) (k : String) (hits : Hits)
    → IsMap hits
    → (get_hit k (filter p hits) ≡ get_hit k hits) ⊎ (get_hit k (filter p hits) ≡ none)
filtered p k [] m = inl refl
filtered p k (x ∷ hits) (fresh, m) = elim (Bool-cases (p x)) [
  | inl kept ↦ elim (Bool-cases (x.0 == k)) [
    | inl here ↦ inl (rw (kept, here) refl)
    | inr other ↦ rw (kept, other) (filtered p k hits m)
  ]
  | inr dropped ↦ elim (Bool-cases (x.0 == k)) [
    | inl here ↦ inr (rw dropped (get_hit-absent p k hits (rw (← (eq_iff x.0 k).0 here) fresh)))
    | inr other ↦ rw (dropped, other) (filtered p k hits m)
  ]
]

-- Pruning leaves the window of an address, or takes it away.
pub get_hit-prune :
    (now : ℕ) (k : String) (hits : Hits)
    → IsMap hits
    → (get_hit k (prune now hits) ≡ get_hit k hits) ⊎ (get_hit k (prune now hits) ≡ none)
get_hit-prune now k hits m = elim (Bool-cases (ltb 1024 (length hits))) [
  | inl many ↦ rw many (filtered (λ h. not (is_over now h.1)) k hits m)
  | inr few ↦ rw few (inl refl)
]
