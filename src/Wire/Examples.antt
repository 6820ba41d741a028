-- ===== src/Wire/Examples.antt =====
-- The theorems on api/proto/convert.go at small inputs, and runs of the code.
use hyperv_control_plane.Prelude.{◌≡◌, refl, inl, inr, arith, pos, negsuc, some, [], codes}
use hyperv_control_plane.Wire.{int32}
use hyperv_control_plane.Wire.Cluster.{cluster_spec_to_proto}
use hyperv_control_plane.Wire.VmStatus.{vm_to_proto, vm_from_proto}
use hyperv_control_plane.Wire.VmStatus.RoundTrip.{vm_on_wire, vm_from_proto-vm_to_proto}
use hyperv_control_plane.Wire.ClusterStatus.{cluster_to_proto, cluster_from_proto}
use hyperv_control_plane.Wire.ClusterStatus.RoundTrip.{
  cluster_on_wire, cluster_from_proto-cluster_to_proto,
}
use hyperv_control_plane.Wire.HostStatus.{host_to_proto, host_from_proto}
use hyperv_control_plane.Wire.HostStatus.RoundTrip.{host_on_wire, host_from_proto-host_to_proto}
use hyperv_control_plane.Wire.Witness.{
  witness_none, declare_witness, cluster_spec_to_proto-witness_none,
}
use hyperv_control_plane.Wire.Samples.{
  stretched, small_library, small_library-IsDocumented, vm, cluster, host,
}

cluster_spec_to_proto-witness_none_example :
    cluster_spec_to_proto (declare_witness witness_none stretched)
    ≡ cluster_spec_to_proto (declare_witness [] stretched)
cluster_spec_to_proto-witness_none_example = cluster_spec_to_proto-witness_none stretched

vm_from_proto-vm_to_proto_example :
    vm_from_proto small_library (some (vm_to_proto small_library vm)) ≡ vm_on_wire vm
vm_from_proto-vm_to_proto_example =
    vm_from_proto-vm_to_proto small_library small_library-IsDocumented vm (
      (
        omega arith,
        omega arith,
        (omega arith, tt),
        inr (inl refl),
        inl refl,
        (omega arith, omega arith),
      ),
      (
        inr (inr (inr (inl refl))),
        inr (inl refl),
        omega arith,
        (inr refl, tt),
        (123, codes "}", refl, refl),
        tt,
      ),
    )

cluster_from_proto-cluster_to_proto_example :
    cluster_from_proto small_library (some (cluster_to_proto small_library cluster))
    ≡ cluster_on_wire cluster
cluster_from_proto-cluster_to_proto_example =
    cluster_from_proto-cluster_to_proto small_library small_library-IsDocumented cluster (
      ((inr (inr (inr refl)), omega arith), inr (inr refl), tt, tt),
      (
        inr (inr (inr (inr (inl refl)))),
        tt,
        (omega arith, tt),
        inr (inr (inr refl)),
        tt,
        omega arith,
        omega arith,
      ),
    )

host_from_proto-host_to_proto_example :
    host_from_proto small_library (some (host_to_proto small_library host)) ≡ host_on_wire host
host_from_proto-host_to_proto_example =
    host_from_proto-host_to_proto small_library small_library-IsDocumented host (
      ((((inr refl, inr (inr refl), omega arith), tt), tt), inr (inr refl), tt, tt),
      (
        inr (inr (inr (inl refl))),
        tt,
        tt,
        tt,
        (((omega arith, omega arith), tt), omega arith, omega arith, omega arith),
        omega arith,
        (tt, tt),
        tt,
      ),
    )

-- 2^32 + 7 is sent as 7, and 2^31 as -2^31.
int32_wraps : int32 (pos 4294967303) ≡ pos 7
unfolding int32
int32_wraps = refl

int32_sign : int32 (pos 2147483648) ≡ negsuc 2147483647
unfolding int32
int32_sign = refl
