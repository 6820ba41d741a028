-- ===== src/Wire/Storage/RoundTrip.antt =====
-- What several specs share that is sent and read back (api/proto/convert.go).
use hyperv_control_plane.Prelude.{◌≡◌, refl, Option, none, some}
use hyperv_control_plane.Wire.{IsInt32, int32_lem, option_int32, AllOption}
use hyperv_control_plane.Types.Storage.{
  LiveMigrationSpec, IsoLibrarySpec, CsvSourceSpec, IscsiStorageSpec,
}
use hyperv_control_plane.Wire.Storage.{
  live_migration_spec_to_proto, live_migration_spec_from_proto, iso_library_spec_to_proto,
  iso_library_spec_from_proto, csv_source_to_proto, csv_source_from_proto, iscsi_spec_to_proto,
  iscsi_spec_from_proto,
}

abbrev pub IsWireLiveMigrationSpec : LiveMigrationSpec → Type 0
IsWireLiveMigrationSpec s = IsInt32 s.max_concurrent

pub live_migration_spec_from_proto-live_migration_spec_to_proto :
    (s : LiveMigrationSpec)
    → IsWireLiveMigrationSpec s
    → live_migration_spec_from_proto (live_migration_spec_to_proto s) ≡ s
unfolding live_migration_spec_to_proto live_migration_spec_from_proto
live_migration_spec_from_proto-live_migration_spec_to_proto s h =
    rw (int32_lem s.max_concurrent h) refl

pub iso_library_spec_from_proto-iso_library_spec_to_proto :
    (o : Option IsoLibrarySpec) → iso_library_spec_from_proto (iso_library_spec_to_proto o) ≡ o
unfolding iso_library_spec_to_proto iso_library_spec_from_proto
iso_library_spec_from_proto-iso_library_spec_to_proto none = refl
iso_library_spec_from_proto-iso_library_spec_to_proto (some s) = refl

abbrev pub IsWireCsvSourceSpec : CsvSourceSpec → Type 0
IsWireCsvSourceSpec s = AllOption IsInt32 s.lun

pub csv_source_from_proto-csv_source_to_proto :
    (o : Option CsvSourceSpec)
    → AllOption IsWireCsvSourceSpec o
    → csv_source_from_proto (csv_source_to_proto o) ≡ o
unfolding csv_source_to_proto csv_source_from_proto
csv_source_from_proto-csv_source_to_proto none h = refl
csv_source_from_proto-csv_source_to_proto (some s) h = rw (option_int32 s.lun h) refl

pub iscsi_spec_from_proto-iscsi_spec_to_proto :
    (o : Option IscsiStorageSpec) → iscsi_spec_from_proto (iscsi_spec_to_proto o) ≡ o
unfolding iscsi_spec_to_proto iscsi_spec_from_proto
iscsi_spec_from_proto-iscsi_spec_to_proto none = refl
iscsi_spec_from_proto-iscsi_spec_to_proto (some s) = refl
