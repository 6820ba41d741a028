-- ===== src/Wire/Cluster/RoundTrip.antt =====
-- The desired state of a cluster that is sent and read back (api/proto/convert.go).
use hyperv_control_plane.Prelude.{◌≡◌, refl, Option, none, some, [], All}
use hyperv_control_plane.Wire.{
  IsInt32, int32_lem, AllOption, option_back, option_back_always, list_back,
}
use hyperv_control_plane.Wire.Enums.RoundTrip.{
  IsSentWitness, witness_type_from_proto-witness_type_to_proto, IsStorageKind,
  storage_kind_from_proto-storage_kind_to_proto,
}
use hyperv_control_plane.Wire.Storage.{live_migration_spec_to_proto, live_migration_spec_from_proto}
use hyperv_control_plane.Wire.Storage.RoundTrip.{
  IsWireLiveMigrationSpec, live_migration_spec_from_proto-live_migration_spec_to_proto,
  iso_library_spec_from_proto-iso_library_spec_to_proto, IsWireCsvSourceSpec,
  csv_source_from_proto-csv_source_to_proto, iscsi_spec_from_proto-iscsi_spec_to_proto,
}
use hyperv_control_plane.Types.Cluster.{
  WitnessSpec, CsvSpec, ReplicaBrokerSpec, ClusterStorageSpec, ClusterSpec,
}
use hyperv_control_plane.Wire.Cluster.{
  witness_spec_to_proto, witness_spec_from_proto, csv_spec_to_proto, csv_spec_from_proto,
  replica_broker_spec_to_proto, replica_broker_spec_from_proto, cluster_storage_to_proto,
  cluster_storage_from_proto, cluster_spec_to_proto, cluster_spec_from_proto,
}

abbrev pub IsWireWitnessSpec : WitnessSpec → Type 0
IsWireWitnessSpec s = (IsSentWitness s.type_) × (AllOption IsWireCsvSourceSpec s.disk)

pub witness_spec_from_proto-witness_spec_to_proto :
    (s : WitnessSpec) → IsWireWitnessSpec s → witness_spec_from_proto (witness_spec_to_proto s) ≡ s
unfolding witness_spec_to_proto witness_spec_from_proto
witness_spec_from_proto-witness_spec_to_proto s h =
    rw
      (
        witness_type_from_proto-witness_type_to_proto s.type_ h.0,
        csv_source_from_proto-csv_source_to_proto s.disk h.1,
      )
      refl

abbrev pub IsWireCsvSpec : CsvSpec → Type 0
IsWireCsvSpec s = (IsInt32 s.number_of_copies) × (AllOption IsWireCsvSourceSpec s.source)

pub csv_spec_from_proto-csv_spec_to_proto :
    (s : CsvSpec) → IsWireCsvSpec s → csv_spec_from_proto (csv_spec_to_proto s) ≡ s
unfolding csv_spec_to_proto csv_spec_from_proto
csv_spec_from_proto-csv_spec_to_proto s h =
    rw (int32_lem s.number_of_copies h.0, csv_source_from_proto-csv_source_to_proto s.source h.1)
      refl

pub replica_broker_spec_from_proto-replica_broker_spec_to_proto :
    (s : ReplicaBrokerSpec) → replica_broker_spec_from_proto (replica_broker_spec_to_proto s) ≡ s
unfolding replica_broker_spec_to_proto replica_broker_spec_from_proto
replica_broker_spec_from_proto-replica_broker_spec_to_proto s = refl

abbrev pub IsWireClusterStorageSpec : ClusterStorageSpec → Type 0
IsWireClusterStorageSpec s = IsStorageKind s.kind

pub cluster_storage_from_proto-cluster_storage_to_proto :
    (o : Option ClusterStorageSpec)
    → AllOption IsWireClusterStorageSpec o
    → cluster_storage_from_proto (cluster_storage_to_proto o) ≡ o
unfolding cluster_storage_to_proto cluster_storage_from_proto
cluster_storage_from_proto-cluster_storage_to_proto none h = refl
cluster_storage_from_proto-cluster_storage_to_proto (some s) h =
    rw
      (
        storage_kind_from_proto-storage_kind_to_proto s.kind h,
        iscsi_spec_from_proto-iscsi_spec_to_proto s.iscsi,
      )
      refl

-- What is left of one without the fields that are not sent.
abbrev pub cluster_spec_on_wire : ClusterSpec → ClusterSpec
cluster_spec_on_wire s = record s { switches = []; default_storage_path = [] }

abbrev pub IsWireClusterSpec : ClusterSpec → Type 0
IsWireClusterSpec s =
    (IsWireWitnessSpec s.witness)
    × (AllOption IsWireClusterStorageSpec s.storage)
    × (All IsWireCsvSpec s.volumes)
    × (AllOption IsWireLiveMigrationSpec s.live_migration)

-- A cluster's desired state is read as it was sent, but for its switches and its default storage
-- path, which are not sent: where the numbers sent as int32 fit one, and the type of the witness and
-- the kind of the storage are empty or of the constants that have a number of their own.
pub cluster_spec_from_proto-cluster_spec_to_proto :
    (s : ClusterSpec)
    → IsWireClusterSpec s
    → cluster_spec_from_proto (some (cluster_spec_to_proto s)) ≡ cluster_spec_on_wire s
unfolding cluster_spec_to_proto cluster_spec_from_proto
cluster_spec_from_proto-cluster_spec_to_proto s h =
    rw
      (
        witness_spec_from_proto-witness_spec_to_proto s.witness h.0,
        cluster_storage_from_proto-cluster_storage_to_proto s.storage h.1,
        list_back IsWireCsvSpec csv_spec_to_proto csv_spec_from_proto
            csv_spec_from_proto-csv_spec_to_proto s.volumes h.2,
        option_back IsWireLiveMigrationSpec live_migration_spec_to_proto
            live_migration_spec_from_proto
            live_migration_spec_from_proto-live_migration_spec_to_proto s.live_migration h.3,
        option_back_always replica_broker_spec_to_proto replica_broker_spec_from_proto
            replica_broker_spec_from_proto-replica_broker_spec_to_proto s.replica_broker,
        iso_library_spec_from_proto-iso_library_spec_to_proto s.iso_library,
      )
      refl
