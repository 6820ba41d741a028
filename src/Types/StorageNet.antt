-- ===== src/Types/StorageNet.antt =====
-- ValidateStorageNetwork of api/types/storagenet.go. net.ParseCIDR is a parameter: the network of
-- an address, as text, if it can be parsed. Go walks its two maps in any order; here their keys
-- come in the order in which they were first met. The names in a message are sorted when it is
-- written, and not here.
pub mod Verdict
use hyperv_control_plane.Prelude.{
  ℕ, Bool, true, false, not, ◌&&◌, ◌||◌, ◌==◌, leb, ltb, Option, none, some, List, [], ◌∷◌, ◌++◌,
  reverse, map, length, select, exists, Text, text_eq, to_lower, equal_fold, if◌then◌else◌,
}
use hyperv_control_plane.Types.Networking.{
  IpConfig, VirtualSwitchSpec, ManagementVnicSpec, HostNetworkingSpec, switch_of, storage_vnics,
  Why, StorageNetworkProblem, not_pinned, pinned_outside_team, no_address, shared_adapter,
  shared_subnet, single_path,
}
use hyperv_control_plane.Types.Mtu.{collect}

abbrev pub is_blank : Text → Bool
is_blank [] = true
is_blank (c ∷ s) = false

unfoldable pub has_fold : List Text → Text → Bool
has_fold hay needle = exists (λ h. equal_fold h needle) hay

-- strings.TrimSpace, of ASCII's white space
trim_start : Text → Text
trim_start [] = []
trim_start (c ∷ s) =
    let rest = trim_start s in if (leb 9 c && leb c 13) || c == 32 then rest else c ∷ s

trim_space : Text → Text
unfolding trim_start
trim_space s = reverse (trim_start (reverse (trim_start s)))

-- The loop's verdict on how a vNIC is pinned, on a switch that is declared.
unfoldable pub check_pin_on : ManagementVnicSpec → VirtualSwitchSpec → List StorageNetworkProblem
unfolding has_fold
check_pin_on v sw =
    if is_blank v.team_member_adapter
    then (if ltb 1 (length sw.team_members)
        then (record {
          vnic = v.name;
          why = not_pinned v.switch_name sw.team_members;
          fatal = false;
        })
          ∷ []
        else [])
    else if not (has_fold sw.team_members v.team_member_adapter)
    then (record {
      vnic = v.name;
      why = pinned_outside_team v.team_member_adapter v.switch_name sw.team_members;
      fatal = true;
    })
      ∷ []
    else []

unfoldable pub check_pin : List VirtualSwitchSpec → ManagementVnicSpec → List StorageNetworkProblem
unfolding check_pin_on
check_pin sws v = elim (switch_of sws (to_lower v.switch_name)) [
  | none ↦ []
  | some sw ↦ check_pin_on v sw
]

-- The vNIC's address, and the empty text where it has none.
abbrev pub address_of : Option IpConfig → Text
address_of none = []
address_of (some ip) = ip.address

unfoldable pub check_address : ManagementVnicSpec → List StorageNetworkProblem
check_address v =
    if is_blank (address_of v.ip_config)
    then (record { vnic = v.name; why = no_address; fatal = true }) ∷ []
    else []

unfoldable pub check_storage :
    List VirtualSwitchSpec → ManagementVnicSpec → List StorageNetworkProblem
unfolding check_pin check_address
check_storage sws v = check_pin sws v ++ check_address v

-- A map from a key to the names under it.
unfoldable pub add_name : Text → Text → List (Text × List Text) → List (Text × List Text)
add_name k name [] = (k, name ∷ []) ∷ []
add_name k name ((j, names) ∷ groups) =
    let rest = add_name k name groups in
    if text_eq j k then (j, names ++ name ∷ []) ∷ groups else (j, names) ∷ rest

unfoldable pub group_by :
    (ManagementVnicSpec → Option Text)
    → List ManagementVnicSpec
    → List (Text × List Text)
    → List (Text × List Text)
unfolding add_name
group_by key [] groups = groups
group_by key (v ∷ vs) groups =
    group_by key vs (elim (key v) [ none ↦ groups | some k ↦ add_name k v.name groups ])

abbrev pub adapter_key : ManagementVnicSpec → Option Text
adapter_key v =
    if is_blank v.team_member_adapter then none else some (to_lower v.team_member_adapter)

unfoldable pub shared : (List Text → Text → Why) → (Text × List Text) → List StorageNetworkProblem
shared why (key, names) =
    if ltb 1 (length names)
    then (record { vnic = []; why = why names key; fatal = false }) ∷ []
    else []

unfoldable pub check_single : Bool → List ManagementVnicSpec → List StorageNetworkProblem
check_single require_multipath (v ∷ []) =
    if require_multipath
    then (record { vnic = v.name; why = single_path; fatal = false }) ∷ []
    else []
check_single require_multipath _ = []

module _ (parse_cidr : Text → Option Text) where
  unfoldable pub subnet_of : Text → Option Text
  unfolding trim_space
  subnet_of cidr = parse_cidr (trim_space cidr)

  abbrev pub subnet_key : ManagementVnicSpec → Option Text
  subnet_key v =
      if is_blank (address_of v.ip_config) then none else subnet_of (address_of v.ip_config)

  unfoldable pub validate_storage_network : HostNetworkingSpec → Bool → List StorageNetworkProblem
  unfolding check_storage group_by shared check_single
  validate_storage_network n require_multipath =
      let vnics = storage_vnics n in
      collect (check_storage n.switches) vnics
      ++ (collect (shared shared_adapter) (group_by adapter_key vnics [])
          ++ (collect (shared shared_subnet) (group_by subnet_key vnics [])
              ++ check_single require_multipath vnics))

unfoldable pub fatal_storage_network_problems :
    List StorageNetworkProblem → List StorageNetworkProblem
fatal_storage_network_problems ps = select (λ p. p.fatal) ps

unfoldable pub storage_addresses : HostNetworkingSpec → List Text
storage_addresses n =
    select (λ a. not (is_blank a)) (map (λ v. address_of v.ip_config) (storage_vnics n))
