-- ===== src/Server/Chain.antt =====
-- The log of one row as its history: every entry of internal/triage/repo.go takes the status from
-- where the entry before it left it.
use sigil_manager.Prelude.{
  String, Bool, true, false, Option, none, List, [], ◌∷◌, ◌++◌, ◌≡◌, ◌≢◌, refl, sym, ◌∙◌, inl, inr,
  Bool-cases, filter,
}
use sigil_manager.Server.{LogEntry}
use sigil_manager.Server.Tables.{filter-append_one, filter-append_other}

-- The entries lead from one status to another, and each is a change; `none` is no row.
abbrev pub Chain : Option String → List LogEntry → Option String → Type 0
Chain from [] to = from ≡ to
Chain from (l ∷ log) to = (l.from_status ≡ from) × (l.to_status ≢ from) × Chain l.to_status log to

pub Chain-append :
    (from to : Option String) (log : List LogEntry) (l : LogEntry)
    → Chain from log to
    → l.from_status ≡ to
    → l.to_status ≢ to
    → Chain from (log ++ (l ∷ [])) l.to_status
Chain-append from to [] l c e n = (e ∙ sym c, (λ back. n (back ∙ c)), refl)
Chain-append from to (x ∷ log) l (first, change, c) e n =
    (first, change, Chain-append x.to_status to log l c e n)

-- The history of a key after one more entry, be it of that key or of another.
pub Chain-entry :
    (p : LogEntry → Bool) (log : List LogEntry) (l : LogEntry) (old new : Option String)
    → Chain none (filter p log) old
    → (p l ≡ true → (l.from_status ≡ old) × (l.to_status ≢ old) × (new ≡ l.to_status))
    → (p l ≡ false → new ≡ old)
    → Chain none (filter p (log ++ (l ∷ []))) new
Chain-entry p log l old new c own other = elim (Bool-cases (p l)) [
  | inl mine ↦
      let (from, change, to) = own mine in
      rw (filter-append_one p log l mine, to) (Chain-append none old (filter p log) l c from change)
  | inr foreign ↦ rw (filter-append_other p log l foreign, other foreign) c
]
