-- ===== src/Lib.antt =====
-- The agent of a Hyper-V control plane: what it keeps, what it decides and what it reports.
--
-- An agent runs on a Hyper-V host. It pulls desired state from a centre, reconciles the host and its
-- VMs against it, runs jobs, and reports status. It goes on while the centre is away, so that what
-- it must not forget stands in a bbolt file. These modules model the parts that decide:
--
-- * Store (agent/store/store.go). Bytes has the keys (itob); Bolt is bbolt as the store uses it, an
--   interface with bbolt's documented behaviour, which Bolt/Listed meets by sorted lists. Journal has
--   the status journal: AppendStatus, Undelivered, MarkDelivered, Recent, PruneJournal and pruneChunk;
--   its children read the bucket as an append-only log. Results has the job results that the centre
--   has not taken, Desired the set of VMs (SaveDesiredVMs, LoadDesiredVMs, DropDesiredVM). Order is on
--   lists in the order of a number.
-- * Service (agent/service/runner.go). Delivery has reportStatus, and Results reportJob and
--   replayJobResults, over the store; Holds has jobHoldsVM, jobTimeoutFor, the bookkeeping of runJobs,
--   vmBusy, noteVMRemoved and clearVMRemoved, as steps on one state, which jobsMu serialises;
--   Generations has the generations that were honoured, their file and a restart, and vmSetChanged.
-- * Reconcile (agent/reconcile). Transient has transientSignature, the tracker and condition
--   (transient.go, reconcile.go); CoreGroup has the verdicts on a cluster's core group (cluster.go);
--   Passes has the results of migration passes (migration.go), and its Latest reads them as a map.
-- * Types (api/types). Networking has the specs, Mtu has ValidateMTU, and its Jumbo the choice of a
--   driver's value (mtu.go); StorageNet has ValidateStorageNetwork (storagenet.go); Runbook the runs of
--   recovery runbooks (runbook.go); Job the states and kinds of jobs (desiredstate.go).
-- * Hyperv.RawDisk (agent/hyperv/rawdisk.go) has WriteAt and AlignedRange, and Vmware.Copy
--   (agent/vmware/copy.go) has CopyDisk over them. Its children follow one byte of the destination:
--   Device through one range, Chunks through the chunks of an extent, Extents through a pass.
--   VmdkHeader and StreamVmdk (agent/vmware/streamvmdk.go) have the decoder of stream-optimised disks:
--   its children follow a grain to the sink (Place), a marker (Marker) and the loop (Grains).
-- * Wire (api/proto/convert.go) has clusters, hosts and VMs, their specs and statuses, as messages
--   (api/proto/ballast.proto), with the conversions of each and, in its RoundTrip, what they leave.
--   Library is what they use of timestamppb, time and encoding/json. Types has the schema: Meta,
--   Cluster, Host, Vm, Inventory, Networking, Storage and the modules of the statuses. Witness has
--   the one declaration that does not arrive.
-- * Prelude has the shared names: Boolean tests, lists over native numbers, strings as bytes, and
--   integers, with Go's int64 as what they wrap to.
--
-- The state of a component is a record or a function, and an operation takes it and returns the next.
-- Numbers that Go keeps in int or int64 are integers, and sequence numbers are natural numbers, which
-- wrap at 2^64. The loop of PruneJournal runs on fuel of one chunk more than the bucket has entries:
-- each chunk but the last examines an entry that no other does. The chunks of an extent run on fuel of
-- two more than the extent has whole chunks, and the markers of a stream on one more than it has
-- sectors, since a marker fills a sector. The modules named Examples run the
-- code, and apply the theorems, at small inputs.
--
-- Not modelled: failures of bbolt's own I/O, and of json.Marshal in the store; the wording of
-- messages, of which the constructors and the values stand; letters beyond ASCII in the folding of
-- case and the trimming of space; the writing and reading of PowerShell (agent/hyperv), the connection
-- to the centre and the Windows service, the client of vCenter (agent/vmware) and the order of the
-- steps of a reconcile pass. What the centre answers is a parameter, as are net.ParseCIDR, the write of
-- the operating system, the libraries of Wire, zlib, and vCenter's answers and range requests.
mod Prelude
pub mod Store
pub mod Types
pub mod Service
pub mod Reconcile
pub mod Hyperv
pub mod Vmware
pub mod Wire
