-- ===== src/Wire/Samples.antt =====
-- Objects to run api/proto/convert.go on, and a library to run it with.
use hyperv_control_plane.Prelude.{
  Option, none, ℕ, Text, refl, pos, true, false, none, some, [], ◌∷◌, codes,
}
use hyperv_control_plane.Types.Vm.{VmSpec, zero_vm_spec}
use hyperv_control_plane.Types.Cluster.{ClusterSpec, zero_cluster_spec}
use hyperv_control_plane.Types.Host.{HostSpec, zero_spec, zero_networking}
use hyperv_control_plane.Types.Inventory.{HostInventory, zero_inventory}
use hyperv_control_plane.Wire.Enums.{
  vm_power_running, set_switch_independent, set_dynamic, reboot_if_needed, witness_disk,
  storage_kind_iscsi,
}
use hyperv_control_plane.Wire.Library.{Library, IsDocumented}
use hyperv_control_plane.Wire.Phase.{phase_ready, phase_degraded}
use hyperv_control_plane.Types.Meta.{ObjectMeta, zero_meta}
use hyperv_control_plane.Types.VmStatus.{Vm, VmObserved, zero_vm_status}
use hyperv_control_plane.Types.ClusterStatus.{Cluster, zero_cluster_status}
use hyperv_control_plane.Types.HostStatus.{Host, zero_status}

abbrev pub guest : VmSpec
guest = record zero_vm_spec {
  hyperv_generation = pos 2;
  boot_order = codes "Drive" ∷ [];
  network_adapters =
      record {
        name = codes "lan";
        switch_name = codes "converged";
        vlan_id = pos 12;
        dvport_name = codes "web";
        mac_address = [];
      }
      ∷ [];
  desired_power_state = vm_power_running;
  replication = some (record {
    enabled = true;
    target_host = codes "h2";
    target_cluster = [];
    replica_server = [];
    frequency_seconds = pos 300;
    authentication_type = codes "Kerberos";
    port = pos 80;
  });
}

abbrev pub stretched : ClusterSpec
stretched = record zero_cluster_spec {
  members = codes "n1" ∷ codes "n2" ∷ [];
  witness = record {
    type_ = witness_disk;
    file_share_path = [];
    cloud_account = [];
    disk = some (record { serial_number = codes "s1"; target_iqn = []; lun = some (pos 0) });
  };
  storage = some (record { kind = storage_kind_iscsi; iscsi = none });
  default_storage_path = codes "C";
}

abbrev pub converged : HostSpec
converged = record zero_spec {
  fqdn = codes "h1.lab";
  networking = record zero_networking {
    switches =
        record {
          name = codes "converged";
          team_members = codes "nic1" ∷ [];
          teaming_mode = set_switch_independent;
          load_balancing = set_dynamic;
          allow_management_os = false;
          mtu_bytes = pos 9000;
        }
        ∷ [];
    nic_configs =
        record {
          adapter_name = codes "nic2";
          ip_config = record { address = codes "10.0.0.2/24"; gateway = []; dns_servers = [] };
        }
        ∷ [];
  };
  reboot_policy = reboot_if_needed;
  maintenance = some (record { enabled = true; reason = codes "firmware" });
}

abbrev pub stock : HostInventory
stock = record zero_inventory {
  physical_adapters =
      record {
        name = codes "nic1";
        mac = codes "00:15:5d:00:00:01";
        link_speed_bps = 10000000000;
        up = true;
        is_management = false;
        ipv4 = [];
        dns_servers = [];
        registers_dns = false;
        gateway = [];
        prefix_length = pos 24;
        any_ipv4 = [];
        mtu_bytes = pos 9014;
        jumbo_keyword = codes "*JumboPacket";
        jumbo_values = codes "9014" ∷ [];
        jumbo_setting = codes "9014";
        rsc_enabled = false;
        lso_enabled = true;
      }
      ∷ [];
  logical_cpus = pos 32;
}

abbrev pub watched : VmObserved
watched = record {
  processor_count = pos 2;
  memory_startup_bytes = 1073741824;
  dynamic_memory = false;
  min_bytes = 0;
  max_bytes = 0;
  generation = pos 2;
  disks = [];
  network_adapters = [];
  integration_services = record { name = codes "VSS"; enabled = true } ∷ [];
}

abbrev pub time_of : Text → Option ℕ
time_of [] = none
time_of (t ∷ s) = some t

-- A library in which a stamp is its time, and JSON is read back only for one value.
abbrev pub small_library : Library ℕ
small_library = record {
  new_stamp = λ t. t;
  as_time = λ t. t;
  format = λ t. t ∷ [];
  parse = time_of;
  vms = record { encode = λ v. none; decode = λ s. none };
  passes = record { encode = λ v. none; decode = λ s. none };
  observed = record { encode = λ v. some (codes "{}"); decode = λ s. some watched };
}

pub small_library-IsDocumented : IsDocumented small_library
small_library-IsDocumented = record { same_time = λ t. refl; nothing_parsed = refl }

abbrev pub named : ObjectMeta
named = record zero_meta { name = codes "one"; generation = pos 3; created_at = 1000 }

abbrev pub vm : Vm
vm = record {
  meta = named;
  spec = guest;
  status = record zero_vm_status {
    phase = phase_ready;
    power_state = vm_power_running;
    cpu_usage_percent = pos 12;
    checkpoints =
        record {
          name = codes "before";
          parent_name = [];
          checkpoint_type = codes "Standard";
          created_at = 2000;
          is_current = true;
        }
        ∷ [];
    observed = some watched;
  };
}

abbrev pub cluster : Cluster
cluster = record {
  meta = named;
  spec = stretched;
  status = record zero_cluster_status {
    phase = phase_degraded;
    networks =
        record {
          name = codes "lan";
          cidr = codes "10.0.0.0/24";
          role = codes "Cluster";
          state = codes "Up";
          metric = pos 70;
        }
        ∷ [];
    witness = some (record {
      type_ = witness_disk;
      path = [];
      state = codes "Online";
      quorum_type = codes "Majority";
    });
  };
}

abbrev pub host : Host
host = record {
  meta = named;
  spec = converged;
  status = record zero_status {
    phase = phase_ready;
    last_contact = 5000;
    inventory = stock;
    import_scan = some (record {
      roots = codes "C" ∷ [];
      scanned_at = 4000;
      elapsed_ms = pos 15;
      truncated = false;
      message = [];
    });
  };
}
