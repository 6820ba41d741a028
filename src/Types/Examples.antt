-- ===== src/Types/Examples.antt =====
-- The theorems on api/types at small inputs.
use hyperv_control_plane.Prelude.{
  ℤ, pos, ltb_ℤ, ◌≡◌, ◌↔◌, true, false, Option, none, some, List, [], ◌∷◌, ◌⊎◌, exists, All, Text,
  codes,
}
use hyperv_control_plane.Types.Networking.{
  VirtualSwitchSpec, ManagementVnicSpec, HostNetworkingSpec, storage_vnics, vnic_storage,
}
use hyperv_control_plane.Types.Mtu.{validate_mtu}
use hyperv_control_plane.Types.Mtu.Agreement.{
  is_fatal, SwitchAgrees, VnicAgrees, validate_mtu_agreement,
}
use hyperv_control_plane.Types.StorageNet.{validate_storage_network}
use hyperv_control_plane.Types.StorageNet.Verdict.{Placed, validate_storage_network_lem}
use hyperv_control_plane.Types.Runbook.{
  RunbookRun, RunbookGroupRun, HealthCheckConfig, health_check_none, group_done, group_gating,
  GroupState, runbook_running, current_group,
}
use hyperv_control_plane.Types.Runbook.Progress.{Stands, current_group-Stands}
use hyperv_control_plane.Types.Mtu.Jumbo.{jumbo_number, jumbo_value_for}
use hyperv_control_plane.Types.Mtu.Jumbo.Value.{Offered, ShortOrAbove, Short, jumbo_value_for_lem}

abbrev converged : VirtualSwitchSpec
converged = record {
  name = codes "Converged";
  team_members = [];
  teaming_mode = [];
  load_balancing = [];
  allow_management_os = false;
  mtu_bytes = pos 9000;
}

abbrev smb : ManagementVnicSpec
smb = record {
  name = codes "SMB01";
  switch_name = codes "converged";
  vlan_id = pos 0;
  ip_config = none;
  min_bandwidth_weight = pos 0;
  purpose = vnic_storage;
  team_member_adapter = [];
  mtu_bytes = pos 9014;
  rdma = none;
}

abbrev host : HostNetworkingSpec
host = record {
  switches = converged ∷ [];
  management_vnics = smb ∷ [];
  dns_servers = [];
  nic_configs = [];
}

validate_mtu_agreement_example :
    (exists is_fatal (validate_mtu host) ≡ false)
    ↔ (All SwitchAgrees (converged ∷ []) × All (VnicAgrees (converged ∷ [])) (smb ∷ []))
validate_mtu_agreement_example = validate_mtu_agreement host

abbrev offered : List Text
offered = codes "Disabled" ∷ codes "9014 Bytes" ∷ codes "4088" ∷ []

jumbo_value_for_lem_example :
    let (v, ok) = jumbo_value_for offered (pos 4000) in
    ((ok ≡ true)
      × Offered offered v
      × ((n : ℤ) × (jumbo_number v ≡ some n)
          × (ltb_ℤ n (pos 4000) ≡ false)
          × All (ShortOrAbove (pos 4000) n) offered))
    ⊎ ((ok ≡ false) × All (Short (pos 4000)) offered)
jumbo_value_for_lem_example = jumbo_value_for_lem offered (pos 4000)

-- A stand-in for net.ParseCIDR that takes an address for its own network.
abbrev own_network : Text → Option Text
own_network a = some a

validate_storage_network_lem_example :
    (exists is_fatal (validate_storage_network own_network host true) ≡ false)
    ↔ All (Placed (converged ∷ [])) (storage_vnics host)
validate_storage_network_lem_example = validate_storage_network_lem own_network host true

abbrev no_gate : HealthCheckConfig
no_gate = record {
  kind = health_check_none;
  address = [];
  port = pos 0;
  script_path = [];
  expected_exit_code = pos 0;
  interval_seconds = pos 0;
  consecutive_successes = pos 0;
}

abbrev tier : GroupState → RunbookGroupRun
tier state = record {
  name = codes "tier";
  state = state;
  message = [];
  members = [];
  gate = no_gate;
  timeout_seconds = pos 0;
  continue_on_member_failure = false;
  started_at = 0;
  ended_at = 0;
}

abbrev half_done : RunbookRun
half_done = record {
  id = codes "r1";
  runbook_name = codes "site";
  mode = codes "Test";
  state = runbook_running;
  message = [];
  groups = tier group_done ∷ tier group_gating ∷ [];
  test_active = true;
}

current_group-Stands_example :
    Stands (tier group_done ∷ tier group_gating ∷ []) (current_group half_done)
current_group-Stands_example = current_group-Stands half_done
