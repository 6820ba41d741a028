-- ===== src/Types/Host.antt =====
-- The desired state of a host (api/types/desiredstate.go). A map is its entries.
use hyperv_control_plane.Prelude.{ℤ, Bool, false, Option, none, List, [], Text}
use hyperv_control_plane.Types.Storage.{LiveMigrationSpec, IsoLibrarySpec, IscsiStorageSpec}
use hyperv_control_plane.Types.Networking.{PhysicalNicConfig, HostNetworkingSpec}

abbrev pub zero_networking : HostNetworkingSpec
zero_networking = record {
  switches = [];
  management_vnics = [];
  dns_servers = [];
  nic_configs = [];
}

pub record HostStorageSpec : Type 0 where
  pub contribute_to_s2d : Bool
  pub eligible_disk_selector : List (Text × Text)
  pub default_vm_path : Text
  pub default_vhd_path : Text
  pub iscsi : Option IscsiStorageSpec

abbrev pub zero_storage : HostStorageSpec
zero_storage = record {
  contribute_to_s2d = false;
  eligible_disk_selector = [];
  default_vm_path = [];
  default_vhd_path = [];
  iscsi = none;
}

pub record WindowsLicenceSpec : Type 0 where
  pub edition : Text
  pub product_key_secret : Text
  pub activation : Text
  pub activation_key_secret : Text
  pub kms_server : Text
  pub target_editions : List Text

pub record ClusterMembershipSpec : Type 0 where
  pub cluster_name : Text

pub record DomainJoinSpec : Type 0 where
  pub domain_name : Text
  pub ou_path : Text
  pub credential_secret : Text

pub record BmcSpec : Type 0 where
  pub address : Text
  pub credential_secret : Text
  pub insecure_tls : Bool

pub record ReplicaServerSpec : Type 0 where
  pub enabled : Bool
  pub authentication_type : Text
  pub port : ℤ  -- int
  pub default_storage_location : Text

pub record MaintenanceSpec : Type 0 where
  pub enabled : Bool
  pub reason : Text

pub record HostSpec : Type 0 where
  pub fqdn : Text
  pub computer_name : Text
  pub management_nic : Option PhysicalNicConfig
  pub bmc : Option BmcSpec
  pub domain_join : Option DomainJoinSpec
  pub enable_hyperv_role : Bool
  pub networking : HostNetworkingSpec
  pub storage : HostStorageSpec
  pub windows_licence : Option WindowsLicenceSpec
  pub cluster_membership : Option ClusterMembershipSpec
  pub reboot_policy : Text
  pub live_migration : Option LiveMigrationSpec
  pub replica_server : Option ReplicaServerSpec
  pub maintenance : Option MaintenanceSpec
  pub iso_library : Option IsoLibrarySpec

abbrev pub zero_spec : HostSpec
zero_spec = record {
  fqdn = [];
  computer_name = [];
  management_nic = none;
  bmc = none;
  domain_join = none;
  enable_hyperv_role = false;
  networking = zero_networking;
  storage = zero_storage;
  windows_licence = none;
  cluster_membership = none;
  reboot_policy = [];
  live_migration = none;
  replica_server = none;
  maintenance = none;
  iso_library = none;
}
