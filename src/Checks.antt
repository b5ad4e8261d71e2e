-- ===== src/Checks.antt =====
-- Runs of the model at concrete inputs, and instances of its theorems.
mod Samples
mod ClientChecks
mod PagingChecks
mod AlertsChecks
mod QueueChecks
mod SearchChecks
mod ShortcutsChecks
mod ServerChecks
mod LimiterChecks
mod SessionChecks
mod TriageChecks
mod FleetChecks
mod DisplayChecks
mod PageChecks
mod KeyboardChecks
mod NotesChecks
mod FormsChecks
mod JourneysChecks
