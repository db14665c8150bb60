-- ===== src/Frozen.antt =====
-- LKM-Source/rkx_frozen.c: whether a task is frozen, on every kernel version that the code tells
-- apart. What the kernel keeps of a task, and its bit masks, are parameters.
pub mod Reasons
use re_kernel_x.Base.{
  ℕ, ◌+◌, ◌*◌, ◌^◌, Bool, true, false, ◌||◌, not, Option, none, some, if◌then◌else◌, ◌==◌, leb, ltb,
  ℤ,
}
use Prim.Native.Nat.{bit_and}

-- KERNEL_VERSION(a, b, 0)
abbrev pub kernel_version : ℕ → ℕ → ℕ
kernel_version a b = a * 2 ^ 16 + b * 2 ^ 8

-- LINUX_VERSION_CODE, JOBCTL_TRAP_FREEZE and TASK_FROZEN of the kernel that the module is built for.
pub record Kernel : Type 0 where
  pub version : ℕ
  pub jobctl_trap_freeze : ℕ
  pub task_frozen : ℕ

-- What is read of `task->group_leader`: __state, frozen() and freezing().
pub record Leader : Type 0 where
  pub state : ℕ
  pub is_frozen : Bool
  pub is_freezing : Bool

-- A task: task_tgid_nr, task_uid, cgroup_task_frozen(), cgroup_task_freeze(), jobctl, and its leader.
pub record Task : Type 0 where
  pub tgid : ℤ
  pub uid : ℕ
  pub cgroup_frozen : Bool
  pub cgroup_freeze : Bool
  pub jobctl : ℕ
  pub group_leader : Option Leader

module _ (k : Kernel) where
  abbrev pub frozen_state_compatible : Leader → Bool
  frozen_state_compatible l =
      if leb (kernel_version 6 1) k.version
      then not (bit_and l.state k.task_frozen == 0)
      else l.is_frozen

  abbrev pub jobctl_frozen_compatible : Task → Bool
  jobctl_frozen_compatible t =
      if ltb k.version (kernel_version 5 15)
      then t.cgroup_freeze
      else not (bit_and t.jobctl k.jobctl_trap_freeze == 0)

  abbrev pub leader_frozen : Option Leader → Bool
  leader_frozen none = false
  leader_frozen (some l) = frozen_state_compatible l || l.is_freezing

  unfoldable pub is_frozen : Task → Bool
  is_frozen t =
      if t.cgroup_frozen || jobctl_frozen_compatible t then true else leader_frozen t.group_leader
