-- ===== src/Service/Generations.antt =====
-- The generations that an agent has honoured: `Observed` of agent/store/store.go, and of
-- agent/service/runner.go what adopts, advances and persists them for the host and for clusters,
-- and vmSetChanged. A map of generations is a function, 0 at a name that it lacks, which is how Go
-- reads it. Advancing the map of VMs, in reconcileVMs, is not modelled.
pub mod Restart
use hyperv_control_plane.Prelude.{
  ℤ, pos, eqb_ℤ, ◌==◌, Bool, true, false, not, ◌&&◌, Option, none, some, List, [], ◌∷◌, length,
  exists, Text, text_eq, if◌then◌else◌,
}
use hyperv_control_plane.Store.Journal.{Stored, json, corrupt, Error, unmarshal}

pub record Observed : Type 0 where
  pub host : ℤ  -- int64
  pub vms : Text → ℤ
  pub clusters : Text → ℤ

-- The bucket `observed`, whose one key is missing at first.
abbrev pub Saved : Type 0
Saved = Option (Stored Observed)

unfoldable pub save_observed : Observed → Saved → Saved
save_observed o st = some (json o)

-- What is read, `none` for ok = false, and the error.
unfoldable pub load_observed : Saved → Option Observed × Option Error
load_observed none = (none, none)
load_observed (some corrupt) = (none, some unmarshal)
load_observed (some (json o)) = (some o, none)

-- The fields of the runner that are persisted, and the file. observedGen stands higher up in the
-- source's struct than the two maps.
pub record Agent : Type 0 where
  pub observed_gen : ℤ
  pub vm_observed_gen : Text → ℤ
  pub cluster_observed_gen : Text → ℤ
  pub st : Saved

abbrev pub in_memory : Agent → Observed
in_memory a = record {
  host = a.observed_gen;
  vms = a.vm_observed_gen;
  clusters = a.cluster_observed_gen;
}

unfoldable pub persist_observed : Agent → Agent
unfolding save_observed
persist_observed a = record a { st = save_observed (in_memory a) a.st }

-- A process that starts over the file: nothing is honoured until the file says so.
unfoldable pub adopt : Option Observed → Saved → Agent
adopt none st = record {
  observed_gen = pos 0;
  vm_observed_gen = λ n. pos 0;
  cluster_observed_gen = λ n. pos 0;
  st = st;
}
adopt (some o) st = record {
  observed_gen = o.host;
  vm_observed_gen = o.vms;
  cluster_observed_gen = o.clusters;
  st = st;
}

unfoldable pub restart : Saved → Agent
unfolding adopt load_observed
restart st = adopt (load_observed st).0 st

-- The host's generation, after a pass.
unfoldable pub host_observed_generation : ℤ → Bool → Agent → Agent
unfolding persist_observed
host_observed_generation gen honoured a =
    if honoured && not (eqb_ℤ a.observed_gen gen)
    then persist_observed (record a { observed_gen = gen })
    else a

unfoldable pub cluster_observed_generation : Text → ℤ → Bool → Agent → Agent × ℤ
unfolding persist_observed
cluster_observed_generation name gen honoured a =
    let a' =
      if honoured && not (eqb_ℤ (a.cluster_observed_gen name) gen)
      then persist_observed (record a {
        cluster_observed_gen = λ n. if text_eq name n then gen else a.cluster_observed_gen n;
      })
      else a in
    (a', a'.cluster_observed_gen name)

-- The name and the generation of a VM.
pub record VmMeta : Type 0 where
  pub name : Text
  pub generation : ℤ

-- The map `seen`, in which a later VM replaces an earlier one of its name.
unfoldable pub seen : List VmMeta → Text → Option ℤ
seen [] k = none
seen (v ∷ vs) k = elim (seen vs k) [
  | some g ↦ some g
  | none ↦ if text_eq v.name k then some v.generation else none
]

abbrev pub differs : Option ℤ → VmMeta → Bool
differs none v = true
differs (some g) v = not (eqb_ℤ g v.generation)

unfoldable pub vm_set_changed : List VmMeta → List VmMeta → Bool
unfolding seen
vm_set_changed a b =
    if not (length a == length b) then true else exists (λ v. differs (seen a v.name) v) b
