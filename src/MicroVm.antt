-- ===== src/MicroVm.antt =====
-- core/microvm.py: the configuration of a microVM, and the executor with the VMs that are active and
-- the snapshots that were taken. Whether the Firecracker binary exists, which files can be removed
-- and the clock are parameters.
pub mod Lifecycle
use Prim.Native.String.{◌++◌ as concat}
use universal_cross_shell_ex.Prelude.{
  ℕ, String, Bool, true, false, not, ◌&&◌, List, [], ◌∷◌, ◌++◌, Option, none, some, if◌then◌else◌,
  keep,
}
use universal_cross_shell_ex.Prelude.Text.{Text, codes}
use universal_cross_shell_ex.Prelude.Dict.{Dict, same, has, lookup, insert, erase}
use universal_cross_shell_ex.Prelude.Result.{Result, ok, err}
use universal_cross_shell_ex.Types.{network, ExecutionContext}
use universal_cross_shell_ex.Ucer.{ExitCode, exited}
use universal_cross_shell_ex.Output.{strip}

pub record Interface : Type 0 where
  pub iface_id : String
  pub guest_mac : String
  pub host_dev_name : String

pub record MachineConfig : Type 0 where
  pub kernel_image_path : String
  pub boot_args : String
  pub drive_id : String
  pub path_on_host : String
  pub is_root_device : Bool
  pub is_read_only : Bool
  pub vcpu_count : ℕ
  pub mem_size_mib : ℕ
  pub network_interfaces : List Interface

-- `build_config`, for limits that are numbers.
unfoldable pub build_config :
    (cpu memory : ℕ) → ExecutionContext → (rootfs kernel : String) → MachineConfig
build_config cpu memory context rootfs kernel = record {
  kernel_image_path = kernel;
  boot_args = "console=ttyS0 reboot=k panic=1 pci=off";
  drive_id = "rootfs";
  path_on_host = rootfs;
  is_root_device = true;
  is_read_only = false;
  vcpu_count = cpu;
  mem_size_mib = memory;
  network_interfaces =
      if context.capabilities network
      then record { iface_id = "eth0"; guest_mac = "AA:FC:00:00:00:01"; host_dev_name = "tap0" }
        ∷ []
      else [];
}

pub record Snapshot : Type 0 where
  pub mem_file : String
  pub state_file : String
  pub timestamp : ℕ

-- The two dicts, by execution, and the files that exist.
pub record Vms : Type 0 where
  pub active_vms : Dict String
  pub snapshots : Dict Snapshot
  pub files : List String

abbrev pub socket_path : String → String
socket_path id = concat "/tmp/firecracker_" (concat id ".socket")

-- `os.path.join(tempfile.gettempdir(), f"ucser_snaps_{exec_id}")`
abbrev pub snap_dir : (tmp id : String) → String
snap_dir tmp id = concat tmp (concat "/ucser_snaps_" id)

unfoldable pub create_snapshot : (tmp : String) (now : ℕ) (id : String) → Vms → Vms
unfolding has insert
create_snapshot tmp now id s = if not (has id s.active_vms) then s else record s {
  snapshots =
      insert id
        (record {
          mem_file = concat (snap_dir tmp id) "/mem.snap";
          state_file = concat (snap_dir tmp id) "/state.snap";
          timestamp = now;
        })
        s.snapshots;
}

abbrev pub without_file : String → List String → List String
without_file path fs = keep (λ f. not (same f path)) fs

abbrev pub mock_socket : String
mock_socket = "mock_socket"

unfoldable pub start_vm : (fc_bin_exists : Bool) (id : String) → Vms → Vms
unfolding insert
start_vm fc id s = record s {
  active_vms = insert id (if fc then socket_path id else mock_socket) s.active_vms;
}

-- The removal of a socket's file, if it exists and can be removed.
abbrev pub remove_socket : (String → Bool) → Option String → Vms → Vms
remove_socket removable none s = s
remove_socket removable (some socket) s =
    if removable socket then record s { files = without_file socket s.files } else s

unfoldable pub cleanup : (removable : String → Bool) (id : String) → Vms → Vms
unfolding lookup erase
cleanup removable id s =
    remove_socket removable (lookup id s.active_vms)
      (record s { active_vms = erase id s.active_vms })

-- A `ValueError` where there is no snapshot.
pub data NoSnapshot : Type 0 where
  no_snapshot : String → NoSnapshot

unfoldable pub restore_snapshot :
    (removable : String → Bool) (fc : Bool) (id : String) → Vms → Result NoSnapshot (Unit {0}) × Vms
unfolding has cleanup start_vm
restore_snapshot removable fc id s =
    if not (has id s.snapshots)
    then (err (no_snapshot id), s)
    else (ok tt, start_vm fc id (cleanup removable id s))

-- What a run returns, without its duration.
pub record RunReport : Type 0 where
  pub stdout : Text
  pub stderr : Text
  pub exit_code : ExitCode
  pub files_added : List Text
  pub files_removed : List Text

unfoldable pub run : (shell command : Text) (fc : Bool) (id : String) → Vms → RunReport × Vms
unfolding has start_vm strip
run shell command fc id s = (
  record {
    stdout = strip (
        codes "[MicroVM: "
        ++ (shell ++ (codes "] Executed: " ++ (command ++ codes "\n__UCSER_END_MOCK__"))));
    stderr = strip [];
    exit_code = exited 0;
    files_added = [];
    files_removed = [];
  },
  if not (has id s.active_vms) then start_vm fc id s else s,
)
