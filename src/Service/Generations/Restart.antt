-- ===== src/Service/Generations/Restart.antt =====
-- What an agent has honoured outlives its process (agent/service/runner.go).
use hyperv_control_plane.Prelude.{
  ℤ, pos, negsuc, eqb_ℤ, ◌≡◌, refl, sym, ◌∙◌, ap, Bool, true, false, not, ◌&&◌, Option, none, some,
  List, [], ◌∷◌, ◌⊎◌, inl, inr, arith, length, exists, All, Bool-cases, Option-cases, Text, text_eq,
  text_eq_refl, text_eq_iff, if◌then◌else◌, ◌==◌, ==_iff,
}
use hyperv_control_plane.Store.Journal.{json, corrupt}
use hyperv_control_plane.Service.Generations.{
  Saved, Agent, in_memory, persist_observed, save_observed, adopt, load_observed, restart,
  host_observed_generation, cluster_observed_generation, VmMeta, seen, differs, vm_set_changed,
}

-- A pass over the host or over a cluster: the desired generation, and whether it was honoured.
pub data Pass : Type 0 where
  host_pass : ℤ → Bool → Pass
  cluster_pass : Text → ℤ → Bool → Pass

abbrev pub step : Agent → Pass → Agent
step a (host_pass gen honoured) = host_observed_generation gen honoured a
step a (cluster_pass name gen honoured) = (cluster_observed_generation name gen honoured a).0

abbrev pub run : Agent → List Pass → Agent
run a [] = a
run a (p ∷ ps) = run (step a p) ps

-- A restart over the agent's file finds the generations that it has in memory.
abbrev pub Outlives : Agent → Type 0
Outlives a = in_memory (restart a.st) ≡ in_memory a

persist-Outlives : (a : Agent) → Outlives (persist_observed a)
unfolding restart adopt load_observed persist_observed save_observed
persist-Outlives a = refl

step-Outlives : (a : Agent) (p : Pass) → Outlives a → Outlives (step a p)
unfolding host_observed_generation cluster_observed_generation
step-Outlives a (host_pass gen honoured) h =
    elim (Bool-cases (honoured && not (eqb_ℤ a.observed_gen gen))) [
      | inl e ↦ rw e (persist-Outlives (record a { observed_gen = gen }))
      | inr e ↦ rw e h
    ]
step-Outlives a (cluster_pass name gen honoured) h =
    elim (Bool-cases (honoured && not (eqb_ℤ (a.cluster_observed_gen name) gen))) [
      | inl e ↦ rw e (
          persist-Outlives (record a {
            cluster_observed_gen = λ n. if text_eq name n then gen else a.cluster_observed_gen n;
          }))
      | inr e ↦ rw e h
    ]

run-Outlives : (a : Agent) (ps : List Pass) → Outlives a → Outlives (run a ps)
run-Outlives a [] h = h
run-Outlives a (p ∷ ps) h = run-Outlives (step a p) ps (step-Outlives a p h)

started-Outlives : (st : Saved) → Outlives (restart st)
unfolding restart adopt load_observed
started-Outlives none = refl
started-Outlives (some corrupt) = refl
started-Outlives (some (json o)) = refl

-- An agent that started over any file, and made any passes over its host and its clusters, finds
-- after a restart just the generations that it had honoured.
pub restart-run :
    (st : Saved) (ps : List Pass)
    → in_memory (restart (run (restart st) ps).st) ≡ in_memory (run (restart st) ps)
restart-run st ps = run-Outlives (restart st) ps (started-Outlives st)

eqb-true : (m n : ℤ) → eqb_ℤ m n ≡ true → m ≡ n
eqb-true (pos m) (pos n) h = ap pos (ground arith)
eqb-true (pos m) (negsuc n) h = absurd (ground arith)
eqb-true (negsuc m) (pos n) h = absurd (ground arith)
eqb-true (negsuc m) (negsuc n) h = ap negsuc (ground arith)

-- A pass over a cluster reports the generation that it honoured, and what was reported before where
-- it honoured none.
pub cluster_observed_generation_lem :
    (name : Text) (gen : ℤ) (honoured : Bool) (a : Agent)
    → (cluster_observed_generation name gen honoured a).1
      ≡ (if honoured then gen else a.cluster_observed_gen name)
unfolding cluster_observed_generation persist_observed
cluster_observed_generation_lem name gen false a = refl
cluster_observed_generation_lem name gen true a =
    elim (Bool-cases (eqb_ℤ (a.cluster_observed_gen name) gen)) [
      | inl e ↦ rw e (eqb-true (a.cluster_observed_gen name) gen e)
      | inr e ↦ rw (e, text_eq_refl name) refl
    ]

-- The VM is in the list, with its generation.
abbrev pub In : List VmMeta → VmMeta → Type 0
In [] v = ⊥
In (w ∷ ws) v = ((w.name ≡ v.name) × (w.generation ≡ v.generation)) ⊎ In ws v

abbrev last_of : VmMeta → VmMeta → Option ℤ → Option ℤ
last_of w v o = elim o [
  | some g ↦ some g
  | none ↦ if text_eq w.name v.name then some w.generation else none
]

some-injective : (m n : ℤ) → some m ≡ some n → m ≡ n
some-injective m n h = ground arith

seen-In :
    (a : List VmMeta) (v : VmMeta) (g : ℤ) → seen a v.name ≡ some g → g ≡ v.generation → In a v
unfolding seen
seen-In [] v g h e = cc
seen-In (w ∷ ws) v g h e = elim (Option-cases (seen ws v.name)) [
  | inr (k, q) ↦
      let same : some k ≡ some g = sym (ap (last_of w v) q) ∙ h in
      inr (seen-In ws v k q (some-injective k g same ∙ e))
  | inl q ↦
      let first : (if text_eq w.name v.name then some w.generation else none) ≡ some g =
        sym (ap (last_of w v) q) ∙ h in
      elim (Bool-cases (text_eq w.name v.name)) [
        | inl t ↦
            inl ((text_eq_iff w.name v.name).0 t, some-injective w.generation g (rw t at first) ∙ e)
        | inr t ↦ cc (rw t at first)
      ]
]

differs-none : (a : List VmMeta) (v : VmMeta) → differs (seen a v.name) v ≡ false → In a v
differs-none a v h = elim (Option-cases (seen a v.name)) [
  | inl e ↦ cc (ap (λ o. differs o v) e, h)
  | inr (g, e) ↦
      seen-In a v g e (eqb-true g v.generation (ground (arith, ap (λ o. differs o v) e, h)))
]

All-In : (a b : List VmMeta) → exists (λ v. differs (seen a v.name) v) b ≡ false → All (In a) b
All-In a [] h = tt
All-In a (v ∷ vs) h = elim (Bool-cases (differs (seen a v.name) v)) [
  | inl e ↦ cc (rw e at h)
  | inr e ↦ (
    differs-none a v e,
    All-In a vs
        (sym (ap (λ t. if t then true else exists (λ w. differs (seen a w.name) w) vs) e) ∙ h),
  )
]

-- Two pulls that are taken for the same have as many VMs, and every VM of the new one is in the old
-- one, with its generation.
pub vm_set_changed_lem :
    (a b : List VmMeta) → vm_set_changed a b ≡ false → (length a ≡ length b) × All (In a) b
unfolding vm_set_changed
vm_set_changed_lem a b h = elim (Bool-cases (length a == length b)) [
  | inl e ↦ ((==_iff (length a) (length b)).0 e, All-In a b (rw e at h))
  | inr e ↦ cc (rw e at h)
]
