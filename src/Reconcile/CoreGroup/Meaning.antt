-- ===== src/Reconcile/CoreGroup/Meaning.antt =====
-- What the verdicts on the core group in agent/reconcile/cluster.go say.
use hyperv_control_plane.Prelude.{
  ℤ, ◌≡◌, ◌↔◌, refl, ap, ◌∙◌, Bool, true, false, not, ◌||◌, ◌&&◌, none, List, [], ◌∷◌, inl, inr,
  arith, exists, Bool-cases, contains, codes, to_lower, pos, negsuc, suc, zero, ◌==◌, ◌%◌, Text,
  if◌then◌else◌,
}
use hyperv_control_plane.Reconcile.CoreGroup.{
  ClusterGroup, ClusterCoreResource, ResourceKind, witness, identity, other, core_resource_kind,
  is_online, Down, flag, scan_down, is_empty, is_core_group, no_identity, state_unknown,
  witness_message, CoreMessage, witness_lost_vote, witness_majority_holds, witness_no_margin,
  core_group_message, core_group_problem, core_group_online,
}

-- The gate of the work on storage opens exactly when no problem of the core group is reported,
-- whatever resources and nodes the report is made from.
pub core_group_online-problem :
    (gs : List ClusterGroup) (rs : List ClusterCoreResource) (nodes : ℤ)
    → (core_group_online gs ≡ true) ↔ (core_group_problem gs rs nodes ≡ none)
unfolding core_group_online core_group_problem
core_group_online-problem [] rs nodes = ground arith
core_group_online-problem (g ∷ gs) rs nodes = elim (Bool-cases (is_core_group g)) [
  | inl a ↦ elim (Bool-cases (is_online g.state)) [
    | inl b ↦ rw (a, b) (ground arith)
    | inr b ↦ rw (a, b) (ground arith)
  ]
  | inr a ↦ rw a (core_group_online-problem gs rs nodes)
]

abbrev is_witness : ResourceKind → Bool
is_witness witness = true
is_witness identity = false
is_witness other = false

-- A resource that calls itself a witness, by its type or its name.
abbrev pub called_witness : ClusterCoreResource → Bool
called_witness r =
    contains (codes "witness") (to_lower r.resource_type)
    || contains (codes "witness") (to_lower r.name)

core_resource_kind-called :
    (r : ClusterCoreResource) → is_witness (core_resource_kind r) ≡ called_witness r
unfolding core_resource_kind
core_resource_kind-called r = ground arith

-- A resource that is down and a witness; and one that is down and is not.
abbrev pub lost_witness : ClusterCoreResource → Bool
lost_witness r = not (is_online r.state) && called_witness r

abbrev pub lost_more : ClusterCoreResource → Bool
lost_more r = not (is_online r.state) && not (called_witness r)

flag-witness :
    (k : ResourceKind) (d : Down) → (flag k d).witness_down ≡ (d.witness_down || is_witness k)
unfolding flag
flag-witness witness d = ground arith
flag-witness identity d = ground arith
flag-witness other d = ground arith

abbrev more : Down → Bool
more d = d.identity_down || d.other_down

flag-more : (k : ResourceKind) (d : Down) → more (flag k d) ≡ (more d || not (is_witness k))
unfolding flag
flag-more witness d = ground arith
flag-more identity d = ground arith
flag-more other d = ground arith

or_step : (b c rest : Bool) → ((b || c) || rest) ≡ (b || (if c then true else rest))
or_step b c rest = ground arith

scan_step :
    (r : ClusterCoreResource) (rs : List ClusterCoreResource) (d : Down) (b : Bool)
    → is_online r.state ≡ b
    → scan_down (r ∷ rs) d ≡ scan_down rs (if b then d else flag (core_resource_kind r) d)
unfolding scan_down
scan_step r rs d b e = ap (λ b. scan_down rs (if b then d else flag (core_resource_kind r) d)) e

scan_down-witness :
    (rs : List ClusterCoreResource) (d : Down)
    → (scan_down rs d).witness_down ≡ (d.witness_down || exists lost_witness rs)
unfolding scan_down
scan_down-witness [] d = ground arith
scan_down-witness (r ∷ rs) d = elim (Bool-cases (is_online r.state)) [
  | inl a ↦ ap (λ x. x.witness_down) (scan_step r rs d true a) ∙ scan_down-witness rs d ∙ rw a refl
  | inr a ↦
      ap (λ x. x.witness_down) (scan_step r rs d false a)
      ∙ scan_down-witness rs (flag (core_resource_kind r) d)
      ∙ ap (λ b. b || exists lost_witness rs)
          (flag-witness (core_resource_kind r) d
            ∙ ap (λ w. d.witness_down || w) (core_resource_kind-called r))
      ∙ rw a (or_step _ _ (exists lost_witness rs))
]

scan_down-more :
    (rs : List ClusterCoreResource) (d : Down)
    → more (scan_down rs d) ≡ (more d || exists lost_more rs)
unfolding scan_down
scan_down-more [] d = ground arith
scan_down-more (r ∷ rs) d = elim (Bool-cases (is_online r.state)) [
  | inl a ↦ ap (λ x. more x) (scan_step r rs d true a) ∙ scan_down-more rs d ∙ rw a refl
  | inr a ↦
      ap (λ x. more x) (scan_step r rs d false a)
      ∙ scan_down-more rs (flag (core_resource_kind r) d)
      ∙ ap (λ b. b || exists lost_more rs)
          (flag-more (core_resource_kind r) d
            ∙ ap (λ w. more d || not w) (core_resource_kind-called r))
      ∙ rw a (or_step _ _ (exists lost_more rs))
]

-- What a lost vote costs, by the number of nodes, where it is known: on an even number nothing is left
-- of the margin, on an odd one a majority holds.
abbrev pub lost_vote : Text → ℤ → CoreMessage
lost_vote state (negsuc n) = witness_lost_vote state
lost_vote state (pos zero) = witness_lost_vote state
lost_vote state (pos (suc n)) =
    if n % 2 == 0
    then witness_majority_holds state (pos (suc n))
    else witness_no_margin state (pos (suc n))

witness_message_lem :
    (state : Text) (nodes : ℤ) → witness_message state nodes ≡ lost_vote state nodes
unfolding witness_message
witness_message_lem state (negsuc n) = ground arith
witness_message_lem state (pos zero) = refl
witness_message_lem state (pos (suc n)) = ground arith

-- The message on a core group with a state speaks of a lost quorum vote just when some resource that
-- is down calls itself a witness, by its type or its name, and all that are down do; what it says of
-- the vote then depends on whether the number of nodes is even, odd or not known. In every other case
-- it says that the cluster has no identity on the network: also when no resource that is down is the
-- cluster's name or one of its addresses, and when no resource was read. Without a state it says that
-- neither is known.
pub core_group_message_lem :
    (state : Text) (rs : List ClusterCoreResource) (nodes : ℤ)
    → core_group_message state rs nodes ≡ (
        if is_empty state
        then state_unknown
        else if exists lost_witness rs && not (exists lost_more rs)
        then lost_vote state nodes
        else no_identity state)
unfolding core_group_message
core_group_message_lem state rs nodes =
    let none_down : Down = record {
      identity_down = false;
      witness_down = false;
      other_down = false;
    } in
    rw⁻¹ (witness_message_lem state nodes)
      (ground (arith, scan_down-witness rs none_down, scan_down-more rs none_down))
