-- ===== src/Display/Reasons/Views.antt =====
-- What one reason shows, and the observed controls: `ReasonItem` of web/src/components/ReasonList.tsx
-- and web/src/components/ObservedControls.tsx.
use sigil_manager.Prelude.{String, Option, none, some, List, [], ◌∷◌, map, template, Json}
use sigil_manager.Api.Fleet.{ReasonLike, AiGuardControl, Nullable, Scope}
use sigil_manager.Display.Labels.{human_kind, short_path, scope_label}
use sigil_manager.Display.Reasons.{
  EvidenceValue, evidence_value, shown_entries, source_chain, entry_label, entry_of, notes,
  controls_line,
}

pub record EntryLine : Type 0 where
  pub label : String
  pub value : EvidenceValue

-- A path of the source chain: its short form, and its whole, which is its title.
pub record ChainLink : Type 0 where
  pub title : String
  pub text : String

pub record ReasonView : Type 0 where
  pub heading : String
  pub entries : List EntryLine
  pub chain : List ChainLink
  pub note : Option String

module _ (upper : String → String) (stringify : Json → String) where
  unfoldable pub reason_item : ReasonLike → ReasonView
  reason_item reason = record {
    heading = human_kind upper reason.kind;
    entries =
        map
          (λ entry. record {
            label = template (entry_label upper entry.0 ∷ ": " ∷ []);
            value = evidence_value stringify entry.1;
          })
          (shown_entries reason.entries);
    chain =
        map (λ path. record { title = path; text = short_path (some path) }) (source_chain reason);
    note = entry_of reason.kind notes;
  }

-- The button that copies a long value.
pub data Copy : Type 0 where
  copied unavailable : Copy

unfoldable pub copy_text : Option Copy → String
copy_text none = "Copy"
copy_text (some copied) = "Copied"
copy_text (some unavailable) = "Copy unavailable — select text above"

pub record ControlView : Type 0 where
  pub setting : String
  pub value : String
  pub source : String
  pub id : String

pub record ControlsView : Type 0 where
  pub assessment : String
  pub line : Option String
  pub controls : List ControlView

abbrev control_list : Nullable (List AiGuardControl) → List AiGuardControl
control_list Nullable.undefined = []
control_list Nullable.null = []
control_list (Nullable.present cs) = cs

unfoldable pub observed_controls :
    (stringify : Json → String)
    → Nullable (List AiGuardControl)
    → (assessed_at : String) → Scope
    → ControlsView
observed_controls stringify controls assessed_at scope = record {
  assessment = template ("Assessment: " ∷ assessed_at ∷ " · " ∷ scope_label (some scope) ∷ []);
  line = controls_line controls;
  controls =
      map
        (λ c. record {
          setting = c.setting;
          value = stringify c.value;
          source = c.source_path;
          id = c.id;
        })
        (control_list controls);
}
