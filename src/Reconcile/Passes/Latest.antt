-- ===== src/Reconcile/Passes/Latest.antt =====
-- The results of migration passes (agent/reconcile/migration.go) as a map from a migration to its last
-- result.
use hyperv_control_plane.Prelude.{
  ◌≡◌, refl, sym, ap, ◌∙◌, Bool, true, false, Bool-cases, inl, inr, Option, none, some, List, [],
  ◌∷◌, select, Text, text_eq, text_eq_iff, if◌then◌else◌,
}
use hyperv_control_plane.Types.HostStatus.{MigrationPassResult}
use hyperv_control_plane.Reconcile.Passes.{
  run_passes, record_migration_pass, forget_migration_pass, PassEvent, recorded, forgotten, apply,
  migration_passes,
}

abbrev pub named : Text → MigrationPassResult → Bool
named name v = text_eq v.migration name

-- The results of one migration, in the order of the report.
abbrev pub results_of : Text → List MigrationPassResult → List MigrationPassResult
results_of name passes = select (named name) passes

abbrev pub note : Text → PassEvent → Option MigrationPassResult → Option MigrationPassResult
note name (recorded res) last = if text_eq res.migration name then some res else last
note name (forgotten other) last = if text_eq other name then none else last

-- The last result of a migration: of its last pass, if nothing dropped it since.
abbrev pub latest : Text → List PassEvent → Option MigrationPassResult → Option MigrationPassResult
latest name [] last = last
latest name (e ∷ es) last = latest name es (note name e last)

abbrev pub at_most_one : Option MigrationPassResult → List MigrationPassResult
at_most_one none = []
at_most_one (some v) = v ∷ []

-- Of three texts, if two are the same they answer alike.
text_eq_same : (a b c : Text) → text_eq a b ≡ true → text_eq a c ≡ text_eq b c
text_eq_same a b c h = ap (λ x. text_eq x c) ((text_eq_iff a b).0 h)

record-other :
    (name : Text) (res : MigrationPassResult) (passes : List MigrationPassResult)
    → text_eq res.migration name ≡ false
    → results_of name (record_migration_pass res passes) ≡ results_of name passes
unfolding record_migration_pass
record-other name res [] h = rw h refl
record-other name res (e ∷ es) h = elim (Bool-cases (text_eq e.migration res.migration)) [
  | inl same ↦
      let not_e : text_eq e.migration name ≡ false =
        text_eq_same e.migration res.migration name same ∙ h in
      rw (same, h, not_e) refl
  | inr differ ↦ rw (differ, record-other name res es h) refl
]

text_eq_to : (a b c : Text) → text_eq b c ≡ true → text_eq a b ≡ text_eq a c
text_eq_to a b c h = ap (λ x. text_eq a x) ((text_eq_iff b c).0 h)

results_of-head :
    (name : Text) (e : MigrationPassResult) (es : List MigrationPassResult)
    → text_eq e.migration name ≡ false
    → results_of name (e ∷ es) ≡ results_of name es
results_of-head name e es h = rw h refl

results_of-named :
    (name : Text) (e : MigrationPassResult) (es : List MigrationPassResult)
    → text_eq e.migration name ≡ true
    → results_of name (e ∷ es) ≡ e ∷ results_of name es
results_of-named name e es h = rw h refl

abbrev rest_of : List MigrationPassResult → List MigrationPassResult
rest_of [] = []
rest_of (v ∷ vs) = vs

alone :
    (e : MigrationPassResult) (vs : List MigrationPassResult) (o : Option MigrationPassResult)
    → e ∷ vs ≡ at_most_one o
    → vs ≡ []
alone e vs none q = ap rest_of q
alone e vs (some v) q = ap rest_of q

record-same :
    (name : Text) (res : MigrationPassResult) (passes : List MigrationPassResult)
    (o : Option MigrationPassResult)
    → text_eq res.migration name ≡ true
    → results_of name passes ≡ at_most_one o
    → results_of name (record_migration_pass res passes) ≡ res ∷ []
unfolding record_migration_pass
record-same name res [] o h q = rw h refl
record-same name res (e ∷ es) o h q = elim (Bool-cases (text_eq e.migration res.migration)) [
  | inl same ↦
      let is_e : text_eq e.migration name ≡ true =
        text_eq_same e.migration res.migration name same ∙ h in
      rw (same, h)
        (ap (λ vs. res ∷ vs)
          (alone e (results_of name es) o (sym (results_of-named name e es is_e) ∙ q)))
  | inr differ ↦
      let not_e : text_eq e.migration name ≡ false =
        sym (text_eq_to e.migration res.migration name h) ∙ differ in
      rw (differ, not_e) (record-same name res es o h (sym (results_of-head name e es not_e) ∙ q))
]

forget-same :
    (name other : Text) (passes : List MigrationPassResult)
    → text_eq other name ≡ true
    → results_of name (forget_migration_pass other passes) ≡ []
unfolding forget_migration_pass
forget-same name other [] h = refl
forget-same name other (e ∷ es) h = elim (Bool-cases (text_eq e.migration other)) [
  | inl same ↦ rw same (forget-same name other es h)
  | inr differ ↦
      let not_e : text_eq e.migration name ≡ false =
        sym (text_eq_to e.migration other name h) ∙ differ in
      rw (differ, not_e) (forget-same name other es h)
]

forget-other :
    (name other : Text) (passes : List MigrationPassResult)
    → text_eq other name ≡ false
    → results_of name (forget_migration_pass other passes) ≡ results_of name passes
unfolding forget_migration_pass
forget-other name other [] h = refl
forget-other name other (e ∷ es) h = elim (Bool-cases (text_eq e.migration other)) [
  | inl same ↦
      let not_e : text_eq e.migration name ≡ false = text_eq_same e.migration other name same ∙ h in
      rw (same, not_e) (forget-other name other es h)
  | inr differ ↦ elim (Bool-cases (text_eq e.migration name)) [
    | inl y ↦ rw (differ, y, forget-other name other es h) refl
    | inr n ↦ rw (differ, n, forget-other name other es h) refl
  ]
]

apply-note :
    (name : Text) (event : PassEvent) (passes : List MigrationPassResult)
    (last : Option MigrationPassResult)
    → results_of name passes ≡ at_most_one last
    → results_of name (apply event passes) ≡ at_most_one (note name event last)
apply-note name (recorded res) passes last q = elim (Bool-cases (text_eq res.migration name)) [
  | inl y ↦ record-same name res passes last y q ∙ rw y refl
  | inr n ↦ record-other name res passes n ∙ q ∙ rw n refl
]
apply-note name (forgotten other) passes last q = elim (Bool-cases (text_eq other name)) [
  | inl y ↦ forget-same name other passes y ∙ rw y refl
  | inr n ↦ forget-other name other passes n ∙ q ∙ rw n refl
]

run-latest :
    (name : Text) (events : List PassEvent) (passes : List MigrationPassResult)
    (last : Option MigrationPassResult)
    → results_of name passes ≡ at_most_one last
    → results_of name (run_passes events passes) ≡ at_most_one (latest name events last)
run-latest name [] passes last q = q
run-latest name (e ∷ es) passes last q =
    run-latest name es (apply e passes) (note name e last) (apply-note name e passes last q)

-- After any passes and clean-ups, in any order and of any migrations, a host reports for a migration
-- just the result of its last pass, once, or nothing where a clean-up followed it or none was made.
pub migration_passes-latest :
    (name : Text) (events : List PassEvent)
    → results_of name (migration_passes (run_passes events []))
      ≡ at_most_one (latest name events none)
migration_passes-latest name events = run-latest name events [] none refl
