-- ===== src/Types/Networking.antt =====
-- The networking part of a host's desired state (api/types/desiredstate.go) and the problems that
-- the checks of api/types report. A message is modelled by what is put into it.
use hyperv_control_plane.Prelude.{
  ℤ, Bool, Option, none, some, List, [], ◌∷◌, select, Text, codes, text_eq, to_lower, if◌then◌else◌,
}

pub record IpConfig : Type 0 where
  pub address : Text  -- CIDR
  pub gateway : Text
  pub dns_servers : List Text

pub record VirtualSwitchSpec : Type 0 where
  pub name : Text
  pub team_members : List Text
  pub teaming_mode : Text
  pub load_balancing : Text
  pub allow_management_os : Bool
  pub mtu_bytes : ℤ  -- int

pub record ManagementVnicSpec : Type 0 where
  pub name : Text
  pub switch_name : Text
  pub vlan_id : ℤ  -- int
  pub ip_config : Option IpConfig
  pub min_bandwidth_weight : ℤ  -- int
  pub purpose : Text
  pub team_member_adapter : Text
  pub mtu_bytes : ℤ  -- int
  pub rdma : Option Bool

pub record PhysicalNicConfig : Type 0 where
  pub adapter_name : Text
  pub ip_config : IpConfig

pub record HostNetworkingSpec : Type 0 where
  pub switches : List VirtualSwitchSpec
  pub management_vnics : List ManagementVnicSpec
  pub dns_servers : List Text
  pub nic_configs : List PhysicalNicConfig

abbrev pub vnic_storage : Text
vnic_storage = codes "Storage"

unfoldable pub is_storage : Text → Bool
is_storage p = text_eq p vnic_storage

unfoldable pub storage_vnics : HostNetworkingSpec → List ManagementVnicSpec
unfolding is_storage
storage_vnics n = select (λ v. is_storage v.purpose) n.management_vnics

-- The map `switchOf` by lower-case name: of two switches of one name the later is found.
unfoldable pub switch_of : List VirtualSwitchSpec → Text → Option VirtualSwitchSpec
switch_of [] k = none
switch_of (sw ∷ sws) k = elim (switch_of sws k) [
  | some later ↦ some later
  | none ↦ if text_eq (to_lower sw.name) k then some sw else none
]

-- What is wrong, with what the message names.
pub data Why : Type 0 where
  switch_mtu_out_of_range : Text → ℤ → Why
  vnic_mtu_out_of_range : ℤ → Why
  -- the vNIC's MTU, the switch, what its uplinks carry, and whether the switch declares an MTU
  mtu_above_uplink : ℤ → Text → ℤ → Bool → Why
  storage_mtu_undeclared : Text → ℤ → Why
  not_pinned : Text → List Text → Why
  pinned_outside_team : Text → Text → List Text → Why
  no_address : Why
  shared_adapter : List Text → Text → Why
  shared_subnet : List Text → Text → Why
  single_path : Why

pub record StorageNetworkProblem : Type 0 where
  pub vnic : Text
  pub why : Why
  pub fatal : Bool
