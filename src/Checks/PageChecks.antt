-- ===== src/Checks/PageChecks.antt =====
-- Reasons and the connection pill on concrete values.
use sigil_manager.Prelude.{String, true, false, none, List, [], ◌∷◌, ◌≡◌, refl, end}
use sigil_manager.Api.Fleet.{ReasonLike}
use sigil_manager.Display.Reasons.{Occurrences, reason_keys}
use sigil_manager.Navigation.{QueryState, nav_state, stale}

pages : Unit {0}
unfolding reason_keys nav_state
pages = tt

abbrev same_reasons : List ReasonLike
same_reasons =
    record { kind = "mcp_tool_surface_drift"; entries = end }
    ∷ record { kind = "mcp_tool_surface_drift"; entries = end }
    ∷ []

abbrev identity : ReasonLike → String
identity r = r.kind

abbrev no_occurrences : Occurrences
no_occurrences k = 0

counted :
    reason_keys identity no_occurrences same_reasons
    ≡ ("mcp_tool_surface_drift", 0) ∷ ("mcp_tool_surface_drift", 1) ∷ []
unfolding pages
counted = refl

abbrev answered : QueryState
answered = record { is_pending = false; has_data = true; error = none; data_updated_at = 1000 }

late : nav_state 40000 answered answered ≡ stale
unfolding pages
late = refl
