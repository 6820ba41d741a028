-- ===== src/Wire/Storage.antt =====
-- What several specs share on the wire: the messages, and the conversions of
-- api/proto/convert.go to and from them.
pub mod RoundTrip
use hyperv_control_plane.Prelude.{
  ℕ, ◌≡◌, refl, sym, ap, ◌∙◌, ◌⊎◌, inl, inr, ℤ, pos, Bool, true, false, Option, none, some, List,
  [], ◌∷◌, map, All, Text, codes, text_eq, if◌then◌else◌,
}
use hyperv_control_plane.Wire.{
  int32, IsInt32, int32_lem, option_int32, map_option, AllOption, or_zero, at_constant, option_back,
  option_back_always, option_onto, list_back, list_back_always, list_onto,
}
use hyperv_control_plane.Types.Storage.{
  LiveMigrationSpec, IsoLibrarySpec, CsvSourceSpec, IscsiStorageSpec,
}

pub record LiveMigrationSpecPb : Type 0 where
  pub enabled : Bool
  pub authentication_type : Text
  pub max_concurrent : ℤ  -- int32
  pub networks : List Text

pub record IsoLibrarySpecPb : Type 0 where
  pub path : Text
  pub credential_secret : Text

pub record CsvSourceSpecPb : Type 0 where
  pub serial_number : Text
  pub target_iqn : Text
  pub lun : Option ℤ

pub record IscsiStorageSpecPb : Type 0 where
  pub portals : List Text
  pub targets : List Text
  pub credential_secret : Text
  pub mutual_chap : Bool
  pub chap_scope : Text
  pub enable_mpio : Option Bool

unfoldable pub live_migration_spec_to_proto : LiveMigrationSpec → LiveMigrationSpecPb
live_migration_spec_to_proto s = record {
  enabled = s.enabled;
  authentication_type = s.authentication_type;
  max_concurrent = int32 s.max_concurrent;
  networks = s.networks;
}

unfoldable pub live_migration_spec_from_proto : LiveMigrationSpecPb → LiveMigrationSpec
live_migration_spec_from_proto m = record {
  enabled = m.enabled;
  authentication_type = m.authentication_type;
  max_concurrent = m.max_concurrent;
  networks = m.networks;
}

unfoldable pub iso_library_spec_to_proto : Option IsoLibrarySpec → Option IsoLibrarySpecPb
iso_library_spec_to_proto none = none
iso_library_spec_to_proto (some s) =
    some (record { path = s.path; credential_secret = s.credential_secret })

unfoldable pub iso_library_spec_from_proto : Option IsoLibrarySpecPb → Option IsoLibrarySpec
iso_library_spec_from_proto none = none
iso_library_spec_from_proto (some m) =
    some (record { path = m.path; credential_secret = m.credential_secret })

unfoldable pub csv_source_to_proto : Option CsvSourceSpec → Option CsvSourceSpecPb
csv_source_to_proto none = none
csv_source_to_proto (some s) = some (record {
  serial_number = s.serial_number;
  target_iqn = s.target_iqn;
  lun = map_option int32 s.lun;
})

unfoldable pub csv_source_from_proto : Option CsvSourceSpecPb → Option CsvSourceSpec
csv_source_from_proto none = none
csv_source_from_proto (some m) =
    some (record { serial_number = m.serial_number; target_iqn = m.target_iqn; lun = m.lun })

unfoldable pub iscsi_spec_to_proto : Option IscsiStorageSpec → Option IscsiStorageSpecPb
iscsi_spec_to_proto none = none
iscsi_spec_to_proto (some s) = some (record {
  portals = s.portals;
  targets = s.targets;
  credential_secret = s.credential_secret;
  mutual_chap = s.mutual_chap;
  chap_scope = s.chap_scope;
  enable_mpio = s.enable_mpio;
})

unfoldable pub iscsi_spec_from_proto : Option IscsiStorageSpecPb → Option IscsiStorageSpec
iscsi_spec_from_proto none = none
iscsi_spec_from_proto (some m) = some (record {
  portals = m.portals;
  targets = m.targets;
  credential_secret = m.credential_secret;
  mutual_chap = m.mutual_chap;
  chap_scope = m.chap_scope;
  enable_mpio = m.enable_mpio;
})
