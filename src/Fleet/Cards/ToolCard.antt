-- ===== src/Fleet/Cards/ToolCard.antt =====
-- The card of one tool, `ToolCard` of web/src/components/Host/AiGuardByTool.tsx, and the section of
-- all tools. `to_fixed` prints a score with two digits.
use sigil_manager.Prelude.{
  ℕ, String, Bool, Option, none, some, List, [], ◌∷◌, map, template, Number, Json, length,
}
use sigil_manager.Api.Fleet.{ToolAiGuard, ReasonLike}
use sigil_manager.Display.Labels.{human_tool, scope_label}
use sigil_manager.Display.Status.{bucket_text_color}
use sigil_manager.Display.Reasons.Views.{ReasonView, reason_item, ControlsView, observed_controls}
use sigil_manager.Fleet.Cards.{bucket_border, risky_tools, quiet_tools, quiet_line}

pub record ToolCard : Type 0 where
  pub border : String
  pub name : String
  pub risk_color : String
  pub risk : String
  pub scope : String
  pub reattested : Bool
  pub controls : ControlsView
  pub reasons : List ReasonView

abbrev reasons_of : Option (List ReasonLike) → List ReasonLike
reasons_of none = []
reasons_of (some rs) = rs

-- The section: a sentence, the cards, and the strip of the quiet tools with theirs.
pub record ToolsView : Type 0 where
  pub sentence : Option String
  pub cards : List ToolCard
  pub strip : Option String
  pub quiet_cards : List ToolCard

module _ (upper : String → String) (stringify : Json → String) (to_fixed : Number → String) where
  unfoldable pub tool_card : String × ToolAiGuard → ToolCard
  tool_card (tool, t) = record {
    border = bucket_border t.bucket;
    name = human_tool tool none;
    risk_color = bucket_text_color t.bucket;
    risk = template (t.bucket ∷ " " ∷ to_fixed t.score ∷ []);
    scope = scope_label (some t.scope);
    reattested = t.is_reattestation;
    controls = observed_controls stringify t.controls t.assessed_ts t.scope;
    reasons = map (reason_item upper stringify) (reasons_of t.reasons);
  }

  module _ (below : Number → Number → Bool) (show : ℕ → String) where
    unfoldable pub tools_view : List (String × ToolAiGuard) → ToolsView
    unfolding tool_card
    tools_view [] = record {
      sentence = some "No AI Guard assessments yet.";
      cards = [];
      strip = none;
      quiet_cards = [];
    }
    tools_view (tool ∷ tools) = record {
      sentence = elim (risky_tools below (tool ∷ tools)) [
        | [] ↦ some "No tools above the low bucket."
        | t ∷ ts ↦ none
      ];
      cards = map tool_card (risky_tools below (tool ∷ tools));
      strip = elim (quiet_tools (tool ∷ tools)) [
        | [] ↦ none
        | t ∷ ts ↦ some (quiet_line show (length (t ∷ ts)) (tool ∷ tools))
      ];
      quiet_cards = map tool_card (quiet_tools (tool ∷ tools));
    }
