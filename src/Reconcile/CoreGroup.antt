-- ===== src/Reconcile/CoreGroup.antt =====
-- The cluster's core group in agent/reconcile/cluster.go: whether it is online, and what its being
-- down means. A message is the constructor of its format, without the list of resources that may
-- follow it; LastTransitionTime is left out.
pub mod Meaning
use hyperv_control_plane.Prelude.{
  ℤ, pos, pos_part, ◌%◌, ◌==◌, ltb_ℤ, Bool, true, false, not, ◌||◌, ◌&&◌, Option, none, some, List,
  [], ◌∷◌, Text, codes, to_lower, equal_fold, contains, if◌then◌else◌,
}

-- agent/hyperv's readings of a group and of a core resource, as far as this code reads them
pub record ClusterGroup : Type 0 where
  pub name : Text
  pub state : Text

pub record ClusterCoreResource : Type 0 where
  pub name : Text
  pub resource_type : Text
  pub state : Text

pub data ResourceKind : Type 0 where
  witness : ResourceKind
  identity : ResourceKind
  other : ResourceKind

unfoldable pub core_resource_kind : ClusterCoreResource → ResourceKind
unfolding to_lower contains
core_resource_kind r =
    let t = to_lower r.resource_type in
    let n = to_lower r.name in
    if contains (codes "witness") t || contains (codes "witness") n
    then witness
    else if contains (codes "network name") t || contains (codes "ip address") t
    then identity
    else other

abbrev pub is_online : Text → Bool
is_online state = equal_fold state (codes "Online")

-- The three flags of the loop in `coreGroupMessage`.
pub record Down : Type 0 where
  pub identity_down : Bool
  pub witness_down : Bool
  pub other_down : Bool

unfoldable pub flag : ResourceKind → Down → Down
flag identity d = record d { identity_down = true }
flag witness d = record d { witness_down = true }
flag other d = record d { other_down = true }

unfoldable pub scan_down : List ClusterCoreResource → Down → Down
unfolding flag
scan_down [] d = d
scan_down (r ∷ rs) d = scan_down rs (if is_online r.state then d else flag (core_resource_kind r) d)

pub data CoreMessage : Type 0 where
  state_unknown : CoreMessage
  witness_no_margin : Text → ℤ → CoreMessage
  witness_majority_holds : Text → ℤ → CoreMessage
  witness_lost_vote : Text → CoreMessage
  no_identity : Text → CoreMessage

abbrev pub is_empty : Text → Bool
is_empty [] = true
is_empty (c ∷ s) = false

unfoldable pub witness_message : Text → ℤ → CoreMessage
witness_message state nodes =
    if ltb_ℤ (pos 0) nodes && (pos_part nodes % 2 == 0)
    then witness_no_margin state nodes
    else if ltb_ℤ (pos 0) nodes
    then witness_majority_holds state nodes
    else witness_lost_vote state

unfoldable pub core_group_message : Text → List ClusterCoreResource → ℤ → CoreMessage
unfolding scan_down witness_message
core_group_message state rs nodes =
    let d =
      scan_down rs (record { identity_down = false; witness_down = false; other_down = false }) in
    if is_empty state
    then state_unknown
    else if d.witness_down && (not d.identity_down && not d.other_down)
    then witness_message state nodes
    else no_identity state

-- The condition ClusterCoreGroup, whose status is false: its reason, with its message.
pub data CoreProblem : Type 0 where
  not_online : CoreMessage → CoreProblem
  not_reported : CoreProblem

abbrev pub is_core_group : ClusterGroup → Bool
is_core_group g = equal_fold g.name (codes "Cluster Group")

unfoldable pub core_group_problem :
    List ClusterGroup → List ClusterCoreResource → ℤ → Option CoreProblem
unfolding core_group_message
core_group_problem [] rs nodes = some not_reported
core_group_problem (g ∷ gs) rs nodes =
    let rest = core_group_problem gs rs nodes in
    if not (is_core_group g)
    then rest
    else if is_online g.state
    then none
    else some (not_online (core_group_message g.state rs nodes))

unfoldable pub core_group_online : List ClusterGroup → Bool
core_group_online [] = false
core_group_online (g ∷ gs) =
    let rest = core_group_online gs in if is_core_group g then is_online g.state else rest
