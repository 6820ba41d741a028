-- ===== src/Wire/Roles.antt =====
-- What a host joins, serves and runs on the wire: the messages, and the conversions of
-- api/proto/convert.go to and from them.
pub mod RoundTrip
use hyperv_control_plane.Prelude.{
  ℕ, ◌≡◌, refl, sym, ap, ◌∙◌, ◌⊎◌, inl, inr, ℤ, pos, Bool, true, false, Option, none, some, List,
  [], ◌∷◌, map, All, Text, codes, text_eq, if◌then◌else◌,
}
use hyperv_control_plane.Wire.{
  int32, IsInt32, int32_lem, option_int32, map_option, AllOption, or_zero, at_constant, option_back,
  option_back_always, option_onto, list_back, list_back_always, list_onto,
}
use hyperv_control_plane.Types.Host.{
  zero_networking, HostStorageSpec, zero_storage, WindowsLicenceSpec, ClusterMembershipSpec,
  DomainJoinSpec, BmcSpec, ReplicaServerSpec, MaintenanceSpec, HostSpec, zero_spec,
}

pub record WindowsLicenceSpecPb : Type 0 where
  pub edition : Text
  pub product_key_secret : Text
  pub activation : Text
  pub activation_key_secret : Text
  pub kms_server : Text

pub record ClusterMembershipSpecPb : Type 0 where
  pub cluster_name : Text

pub record DomainJoinSpecPb : Type 0 where
  pub domain_name : Text
  pub ou_path : Text
  pub credential_secret : Text

pub record BmcSpecPb : Type 0 where
  pub address : Text
  pub credential_secret : Text
  pub insecure_tls : Bool

pub record ReplicaServerSpecPb : Type 0 where
  pub enabled : Bool
  pub authentication_type : Text
  pub port : ℤ  -- int32
  pub default_storage_location : Text

pub record MaintenanceSpecPb : Type 0 where
  pub enabled : Bool
  pub reason : Text

unfoldable pub windows_licence_spec_to_proto :
    Option WindowsLicenceSpec → Option WindowsLicenceSpecPb
windows_licence_spec_to_proto none = none
windows_licence_spec_to_proto (some s) = some (record {
  edition = s.edition;
  product_key_secret = s.product_key_secret;
  activation = s.activation;
  activation_key_secret = s.activation_key_secret;
  kms_server = s.kms_server;
})

unfoldable pub windows_licence_spec_from_proto :
    Option WindowsLicenceSpecPb → Option WindowsLicenceSpec
windows_licence_spec_from_proto none = none
windows_licence_spec_from_proto (some m) = some (record {
  edition = m.edition;
  product_key_secret = m.product_key_secret;
  activation = m.activation;
  activation_key_secret = m.activation_key_secret;
  kms_server = m.kms_server;
  target_editions = [];
})

unfoldable pub cluster_membership_spec_to_proto : ClusterMembershipSpec → ClusterMembershipSpecPb
cluster_membership_spec_to_proto s = record { cluster_name = s.cluster_name }

unfoldable pub cluster_membership_spec_from_proto : ClusterMembershipSpecPb → ClusterMembershipSpec
cluster_membership_spec_from_proto m = record { cluster_name = m.cluster_name }

unfoldable pub domain_join_spec_to_proto : DomainJoinSpec → DomainJoinSpecPb
domain_join_spec_to_proto s = record {
  domain_name = s.domain_name;
  ou_path = s.ou_path;
  credential_secret = s.credential_secret;
}

unfoldable pub domain_join_spec_from_proto : DomainJoinSpecPb → DomainJoinSpec
domain_join_spec_from_proto m = record {
  domain_name = m.domain_name;
  ou_path = m.ou_path;
  credential_secret = m.credential_secret;
}

unfoldable pub bmc_spec_to_proto : BmcSpec → BmcSpecPb
bmc_spec_to_proto s = record {
  address = s.address;
  credential_secret = s.credential_secret;
  insecure_tls = s.insecure_tls;
}

unfoldable pub bmc_spec_from_proto : BmcSpecPb → BmcSpec
bmc_spec_from_proto m = record {
  address = m.address;
  credential_secret = m.credential_secret;
  insecure_tls = m.insecure_tls;
}

unfoldable pub replica_server_spec_to_proto : ReplicaServerSpec → ReplicaServerSpecPb
replica_server_spec_to_proto s = record {
  enabled = s.enabled;
  authentication_type = s.authentication_type;
  port = int32 s.port;
  default_storage_location = s.default_storage_location;
}

unfoldable pub replica_server_spec_from_proto : ReplicaServerSpecPb → ReplicaServerSpec
replica_server_spec_from_proto m = record {
  enabled = m.enabled;
  authentication_type = m.authentication_type;
  port = m.port;
  default_storage_location = m.default_storage_location;
}

unfoldable pub maintenance_spec_to_proto : MaintenanceSpec → MaintenanceSpecPb
maintenance_spec_to_proto s = record { enabled = s.enabled; reason = s.reason }

unfoldable pub maintenance_spec_from_proto : MaintenanceSpecPb → MaintenanceSpec
maintenance_spec_from_proto m = record { enabled = m.enabled; reason = m.reason }
