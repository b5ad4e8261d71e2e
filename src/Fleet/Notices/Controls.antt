-- ===== src/Fleet/Notices/Controls.antt =====
-- The controls below a list, web/src/components/Fleet/Pagination.tsx: its alerts and its buttons.
use sigil_manager.Prelude.{
  String, Bool, Option, none, some, List, [], ◌∷◌, ◌++◌, if◌then◌else◌, template,
}
use sigil_manager.Api.Client.{Failure, message_of}

pub record Button : Type 0 where
  pub text : String
  pub disabled : Bool

pub record Controls : Type 0 where
  pub alerts : List String
  pub load_more : Option Button
  pub refresh : Button

abbrev error_alert : Option Failure → List String
error_alert none = []
error_alert (some e) =
    template
      ("Could not load results: " ∷ message_of e ∷ ". Previously loaded results are retained." ∷ [])
    ∷ []

unfoldable pub controls :
    (has_more is_fetching : Bool) (error : Option Failure) (cursor_repeated : Bool) → Controls
controls has_more is_fetching error cursor_repeated = record {
  alerts =
      error_alert error
      ++ (if cursor_repeated
          then "The server repeated a cursor. Refresh to retry; results may be incomplete." ∷ []
          else []);
  load_more =
      if has_more
      then some (record {
        text = if is_fetching then "Loading…" else "Load more";
        disabled = is_fetching;
      })
      else none;
  refresh = record {
    text = elim error [ none ↦ "Refresh" | some e ↦ "Retry" ];
    disabled = is_fetching;
  };
}
