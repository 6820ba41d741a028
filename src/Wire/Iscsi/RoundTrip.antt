-- ===== src/Wire/Iscsi/RoundTrip.antt =====
-- The iSCSI connections of a node that is sent and read back (api/proto/convert.go).
use hyperv_control_plane.Prelude.{◌≡◌, refl, All}
use hyperv_control_plane.Wire.{IsInt32, int32_lem, list_back}
use hyperv_control_plane.Types.ClusterStatus.{IscsiSession, IscsiDisk, IscsiStatus}
use hyperv_control_plane.Wire.Iscsi.{
  iscsi_session_to_proto, iscsi_session_from_proto, iscsi_disk_to_proto, iscsi_disk_from_proto,
  iscsi_status_to_proto, iscsi_status_from_proto,
}

abbrev pub IsWireIscsiSession : IscsiSession → Type 0
IsWireIscsiSession s = IsInt32 s.paths

pub iscsi_session_from_proto-iscsi_session_to_proto :
    (s : IscsiSession)
    → IsWireIscsiSession s
    → iscsi_session_from_proto (iscsi_session_to_proto s) ≡ s
unfolding iscsi_session_to_proto iscsi_session_from_proto
iscsi_session_from_proto-iscsi_session_to_proto s h = rw (int32_lem s.paths h) refl

abbrev pub IsWireIscsiDisk : IscsiDisk → Type 0
IsWireIscsiDisk s = (IsInt32 s.number) × (IsInt32 s.lun)

pub iscsi_disk_from_proto-iscsi_disk_to_proto :
    (s : IscsiDisk) → IsWireIscsiDisk s → iscsi_disk_from_proto (iscsi_disk_to_proto s) ≡ s
unfolding iscsi_disk_to_proto iscsi_disk_from_proto
iscsi_disk_from_proto-iscsi_disk_to_proto s h =
    rw (int32_lem s.number h.0, int32_lem s.lun h.1) refl

abbrev pub IsWireIscsiStatus : IscsiStatus → Type 0
IsWireIscsiStatus s = (All IsWireIscsiSession s.sessions) × (All IsWireIscsiDisk s.disks)

pub iscsi_status_from_proto-iscsi_status_to_proto :
    (s : IscsiStatus) → IsWireIscsiStatus s → iscsi_status_from_proto (iscsi_status_to_proto s) ≡ s
unfolding iscsi_status_to_proto iscsi_status_from_proto
iscsi_status_from_proto-iscsi_status_to_proto s h =
    rw
      (
        list_back IsWireIscsiSession iscsi_session_to_proto iscsi_session_from_proto
            iscsi_session_from_proto-iscsi_session_to_proto s.sessions h.0,
        list_back IsWireIscsiDisk iscsi_disk_to_proto iscsi_disk_from_proto
            iscsi_disk_from_proto-iscsi_disk_to_proto s.disks h.1,
      )
      refl
