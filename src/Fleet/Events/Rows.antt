-- ===== src/Fleet/Events/Rows.antt =====
-- The rows of the events page.
use sigil_manager.Prelude.{
  String, Bool, true, false, Option, none, some, List, [], ◌∷◌, ◌≡◌, inl, inr, refl, arith,
  if◌then◌else◌, ◌==◌, string_eq, Bool-cases, Option-cases, truthy, any, filter,
}
use sigil_manager.Api.Fleet.{EventWithTriage}
use sigil_manager.Fleet.Events.{FleetEventsFilter, tool_name, tool_rows, fleet_events_rows}

abbrev pub lacks_evidence : EventWithTriage → Bool
lacks_evidence row = elim row.evidence [ none ↦ true | some e ↦ false ]

module _ (lower : String → String) where
  abbrev pub is_of_tool : String → EventWithTriage → Bool
  is_of_tool tool row = elim row.evidence [ none ↦ false | some e ↦ lower (tool_name e) == tool ]

  tool_rows_lem :
      (tool : String) (rows : List EventWithTriage)
      → tool_rows lower tool rows
        ≡ (if any lacks_evidence rows then none else some (filter (is_of_tool tool) rows))
  unfolding tool_rows
  tool_rows_lem tool [] = refl
  tool_rows_lem tool (row ∷ rest) = ground (arith, tool_rows_lem tool rest)

  -- The tool that the filter names, in lower case.
  abbrev pub named_tool : FleetEventsFilter → Option String
  named_tool f = elim f.tool [
    | none ↦ none
    | some t ↦ if truthy (lower t) then some (lower t) else none
  ]

  -- Without a tool in the filter the page shows all loaded rows. With one it shows, in their order,
  -- exactly the rows whose evidence names this tool, whatever the case; but if any loaded row has no
  -- evidence, showing them throws.
  pub fleet_events_rows_lem :
      (f : FleetEventsFilter) (rows : List EventWithTriage)
      → fleet_events_rows lower f rows ≡ (elim (named_tool f) [
        | none ↦ some rows
        | some tool ↦ if any lacks_evidence rows then none else some (filter (is_of_tool tool) rows)
      ])
  unfolding fleet_events_rows
  fleet_events_rows_lem f rows = elim (Option-cases f.tool) [
    | inl no_tool ↦ rw no_tool refl
    | inr (t, named) ↦ elim (Bool-cases (truthy (lower t))) [
      | inl written ↦ rw (named, written) (tool_rows_lem (lower t) rows)
      | inr empty ↦ rw (named, empty) refl
    ]
  ]
