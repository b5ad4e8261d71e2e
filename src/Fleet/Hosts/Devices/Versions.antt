-- ===== src/Fleet/Hosts/Devices/Versions.antt =====
-- The comparison of a reported version with the target that is typed in.
use Prim.Native.Char.{Char, code}
use Prim.Native.String.{◌∷◌}
use mathlib.Core.List.{[], ◌∷◌}
use sigil_manager.Prelude.{
  String, Bool, true, false, List, ◌≡◌, refl, sym, ap, ◌∙◌, if◌then◌else◌, ◌==◌, string_eq, eqb,
  truthy, chars, of_chars, IsSolid, trim-IsSolid, truthy-IsSolid, cons-IsSolid, is_space,
  of_chars-chars,
}
use sigil_manager.Fleet.Hosts.{normalize_version, target_comparison}

abbrev begins_v : List Char → Bool
begins_v [] = false
begins_v (c ∷ cs) = eqb (code c) b'v'

-- A version as it is reported: not empty, without outer space, and without a "v" in front.
abbrev pub IsBare : String → Type 0
IsBare version = IsSolid version × (begins_v (chars version) ≡ false)

-- `replace(/^v/, '')`
abbrev strip : String → String
strip t = elim (chars t) [ [] ↦ "" | c ∷ rest ↦ if eqb (code c) b'v' then of_chars rest else t ]

-- The same, of the characters of the trimmed text.
stripped :
    (cs : List Char) (whole : String)
    → begins_v cs ≡ false
    → whole ≡ of_chars cs
    → (elim cs as (λ _. String) [
      | [] ↦ ""
      | c ∷ rest ↦ if eqb (code c) b'v' then of_chars rest else whole
    ])
      ≡ whole
stripped [] whole h e = sym e
stripped (c ∷ cs) whole h e = rw h refl

normalize-bare : (version : String) → IsBare version → normalize_version version ≡ version
unfolding normalize_version
normalize-bare version (solid, bare) =
    ap strip (trim-IsSolid version solid)
    ∙ stripped (chars version) version bare (sym (of_chars-chars version))

normalize-v :
    (c : Char) (version : String)
    → eqb (code c) b'v' ≡ true
    → is_space (code c) ≡ false
    → IsSolid version
    → normalize_version (c ∷ version) ≡ version
unfolding normalize_version
normalize-v c version is_v front solid =
    ap strip (trim-IsSolid (c ∷ version) (cons-IsSolid c version front solid))
    ∙ rw is_v (of_chars-chars version)

compared :
    (version target : String)
    → IsBare version
    → target_comparison version target
      ≡ (if version == target then "Matches target" else "Differs from target")
unfolding target_comparison
compared version target h = rw (truthy-IsSolid version h.0, normalize-bare version h) refl

-- For a reported version and a target that are not empty and have neither outer space nor a "v" in
-- front, the device matches the target exactly if they are the same, whether the target is typed as
-- it is or with a "v" in front, and in both cases the column of the comparison is there.
pub target_comparison_lem :
    (version target : String)
    → IsBare version
    → IsBare target
    → let same : String = (if version == target then "Matches target" else "Differs from target") in
      (target_comparison version (normalize_version target) ≡ same)
      × (target_comparison version (normalize_version (String.◌∷◌ "v" target)) ≡ same)
      × (truthy (normalize_version target) ≡ true)
      × (truthy (normalize_version (String.◌∷◌ "v" target)) ≡ true)
unfolding is_space
target_comparison_lem version target h k =
    let plain = normalize-bare target k in
    let marked = normalize-v "v" target refl refl k.0 in
    (
      rw plain (compared version target h),
      rw marked (compared version target h),
      rw plain (truthy-IsSolid target k.0),
      rw marked (truthy-IsSolid target k.0),
    )
