-- ===== src/Alerts/Polling/Pausing.antt =====
-- Polling pauses exactly while the pointer has entered more rows than it has left.
use sigil_manager.Prelude.{
  ℕ, ◌+◌, ◌-◌, none, some, List, [], ◌∷◌, ◌≡◌, refl, arith, if◌then◌else◌, ltb,
}
use sigil_manager.Alerts.Polling.{
  Hover, rest, on_row_hover_enter, on_row_hover_leave, refetch_interval, poll_interval_ms,
}

pub data HoverEvent : Type 0 where
  enter leave : HoverEvent

abbrev pub run : List HoverEvent → Hover → Hover
run [] h = h
run (enter ∷ es) h = run es (on_row_hover_enter h)
run (leave ∷ es) h = run es (on_row_hover_leave h)

-- How many rows the pointer is over, where leaving none changes nothing.
abbrev pub over : ℕ → List HoverEvent → ℕ
over n [] = n
over n (enter ∷ es) = over (n + 1) es
over n (leave ∷ es) = over (n - 1) es

run-over :
    (es : List HoverEvent) (h : Hover)
    → h.paused ≡ ltb 0 h.depth
    → ((run es h).depth ≡ over h.depth es) × ((run es h).paused ≡ ltb 0 (over h.depth es))
unfolding on_row_hover_enter on_row_hover_leave
run-over [] h p = (refl, p)
run-over (enter ∷ es) h p = run-over es (on_row_hover_enter h) (ground arith)
run-over (leave ∷ es) h p = run-over es (on_row_hover_leave h) (ground arith)

-- After any entering and leaving of rows, the queue polls at its interval exactly if the pointer is
-- over no row.
pub refetch_interval-run :
    (es : List HoverEvent)
    → refetch_interval (run es rest) ≡ (if ltb 0 (over 0 es) then none else some poll_interval_ms)
unfolding refetch_interval
refetch_interval-run es = ground (arith, run-over es rest refl)
