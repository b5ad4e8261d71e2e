-- ===== src/Display/Labels.antt =====
-- web/src/lib/labels.ts: names of tools and kinds, titles of hooks, short paths and scopes.
-- `upper` is `toUpperCase`, which stays a parameter.
pub mod Paths
use Prim.Native.Nat.{◌-◌}
use Prim.Native.Char.{code}
use Prim.Native.String.{◌∷◌ as ◌∷ₛ◌}
use sigil_manager.Prelude.{
  ℕ, zero, suc, String, Bool, true, false, Option, none, some, List, [], ◌∷◌, ◌&&◌, if◌then◌else◌,
  ◌==◌, string_eq, map, filter, length, leb, ltb, truthy, truthy?, template, join, split, chars,
  of_chars,
}
use sigil_manager.Api.Fleet.{
  HookEvidence, hook_invocation, hook_decision, hook_config_drift, possible_hook_activity_silent,
  Scope, user_global, project, application,
}

-- `_` and `/`, by their codes.
abbrev underscore : ℕ
underscore = 0x5f

abbrev pub slash : ℕ
slash = 0x2f

unfoldable pub human_tool : (tool : String) (tool_label : Option String) → String
human_tool tool tool_label =
    let named : String = elim tool_label [ none ↦ "" | some l ↦ l ] in
    if (tool == "other") && truthy named
    then named
    else if tool == "claude_code"
    then "Claude Code"
    else if tool == "claude_desktop"
    then "Claude Desktop"
    else if tool == "continue_dev"
    then "Continue.dev"
    else if tool == "codex"
    then "Codex"
    else if tool == "gemini"
    then "Gemini"
    else if tool == "cursor"
    then "Cursor"
    else if tool == "antigravity"
    then "Antigravity"
    else if tool == "grok"
    then "Grok"
    else if tool == "other"
    then "Other"
    else tool

module _ (upper : String → String) where
  -- `s[0].toUpperCase() + s.slice(1)`: the first unit in upper case. A code point of two units
  -- begins with a surrogate, which has no case.
  unfoldable pub capitalized : String → String
  capitalized s = elim (chars s) [
    | [] ↦ s
    | c ∷ cs ↦
        if ltb (code c) 0x10000 then template (upper (of_chars (c ∷ [])) ∷ of_chars cs ∷ []) else s
  ]

  unfoldable pub human_kind : String → String
  unfolding capitalized
  human_kind kind = join " " (map capitalized (split underscore kind))

abbrev pub hook_agent : HookEvidence → String
hook_agent (hook_invocation h) = h.agent
hook_agent (hook_decision h) = h.agent
hook_agent (hook_config_drift h) = h.agent
hook_agent (possible_hook_activity_silent h) = h.agent

-- `hook.kind === 'hook_invocation' ? hook.other_label : undefined`
abbrev pub hook_label : HookEvidence → Option String
hook_label (hook_invocation h) = h.other_label
hook_label _ = none

unfoldable pub hook_title : HookEvidence → String
unfolding human_tool
hook_title hook =
    let tool = human_tool (hook_agent hook) (hook_label hook) in
    elim hook [
      | hook_invocation h ↦ template ("Hook activity · " ∷ tool ∷ [])
      | hook_decision h ↦
          let mode : String = elim h.enforcement_mode [ none ↦ "mode unreported" | some m ↦ m ] in
          let base = template ("Hook decision " ∷ h.decision ∷ " · " ∷ tool ∷ " · " ∷ mode ∷ []) in
          elim h.rule_id [
            | none ↦ base
            | some rule ↦ if truthy rule then template (base ∷ " — " ∷ rule ∷ []) else base
          ]
      | hook_config_drift h ↦ template ("Hook config drift · " ∷ tool ∷ [])
      | possible_hook_activity_silent h ↦ template ("Possible silent hook · " ∷ tool ∷ [])
    ]

-- `xs.slice(n)`
abbrev pub slice_from {ℓ} : {A : Type ℓ} → ℕ → List A → List A
slice_from zero xs = xs
slice_from (suc n) [] = []
slice_from (suc n) (x ∷ xs) = slice_from n xs

-- `xs.slice(-2)`
abbrev pub last_two {ℓ} : {A : Type ℓ} → List A → List A
last_two xs = slice_from (length xs - 2) xs

-- `p.split('/').filter(Boolean)`
abbrev pub segments : String → List String
segments p = filter truthy (split slash p)

unfoldable pub short_path : Option String → String
short_path none = ""
short_path (some p) =
    if truthy p
    then (if leb (length (segments p)) 2
        then p
        else template ("…/" ∷ join "/" (last_two (segments p)) ∷ []))
    else ""

unfoldable pub scope_label : Option Scope → String
unfolding short_path
scope_label none = "—"
scope_label (some user_global) = "user global"
scope_label (some (project path)) = template ("project · " ∷ short_path path ∷ [])
scope_label (some (application app)) = template ("app · " ∷ app ∷ [])
