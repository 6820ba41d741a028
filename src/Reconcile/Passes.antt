-- ===== src/Reconcile/Passes.antt =====
-- agent/reconcile/migration.go: the results of migration passes that a host reports. migrationMu makes
-- each operation one step.
pub mod Latest
use hyperv_control_plane.Prelude.{Bool, not, List, [], ◌∷◌, select, Text, text_eq, if◌then◌else◌}
use hyperv_control_plane.Types.HostStatus.{MigrationPassResult}

unfoldable pub record_migration_pass :
    MigrationPassResult → List MigrationPassResult → List MigrationPassResult
record_migration_pass res [] = res ∷ []
record_migration_pass res (existing ∷ rest) =
    let later = record_migration_pass res rest in
    if text_eq existing.migration res.migration then res ∷ rest else existing ∷ later

unfoldable pub forget_migration_pass : Text → List MigrationPassResult → List MigrationPassResult
forget_migration_pass name passes = select (λ v. not (text_eq v.migration name)) passes

-- What happens to the results: a pass reports, or the clean-up of a migration drops its result.
pub data PassEvent : Type 0 where
  recorded : MigrationPassResult → PassEvent
  forgotten : Text → PassEvent

abbrev pub apply : PassEvent → List MigrationPassResult → List MigrationPassResult
apply (recorded res) passes = record_migration_pass res passes
apply (forgotten name) passes = forget_migration_pass name passes

-- The results after events, the first one first, from the results before.
abbrev pub run_passes : List PassEvent → List MigrationPassResult → List MigrationPassResult
run_passes [] passes = passes
run_passes (e ∷ es) passes = run_passes es (apply e passes)

-- What is reported: a copy of the results.
abbrev pub migration_passes : List MigrationPassResult → List MigrationPassResult
migration_passes passes = passes
