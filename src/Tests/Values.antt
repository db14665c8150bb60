-- ===== src/Tests/Values.antt =====
-- Concrete hashes, kernels and tasks for the tests.
use re_kernel_x.Base.{ℕ, ◌+◌, ◌*◌, ◌%◌, ◌^◌, ◌<◌, [], ◌∷◌, true, false, none, arith, CString, pos}
use re_kernel_x.Hashtable.{HashMin}
use re_kernel_x.FreeAsync.{Hash}
use re_kernel_x.Frozen.{Kernel, Task}

pub slot-lt : (key : ℕ) → key % 64 < 64
slot-lt key = omega arith

-- The low six bits.
abbrev pub low_bits : HashMin
low_bits = record { slot = λ key. key % 64; slot-lt = slot-lt }

unfoldable pub sum : CString → ℕ
sum [] = 0
sum (c ∷ cs) = c + sum cs

abbrev pub sum_hash : Hash
sum_hash = record { jhash = sum; min_hash = low_bits }

-- A 6.1 kernel.
abbrev pub kernel : Kernel
kernel = record { version = 6 * 2 ^ 16 + 2 ^ 8; jobctl_trap_freeze = 2 ^ 23; task_frozen = 2 ^ 15 }

-- A frozen and a running task.
abbrev pub frozen_task : ℕ → ℕ → Task
frozen_task pid uid = record {
  tgid = pos pid;
  uid = uid;
  cgroup_frozen = true;
  cgroup_freeze = false;
  jobctl = 0;
  group_leader = none;
}

abbrev pub running_task : ℕ → ℕ → Task
running_task pid uid = record {
  tgid = pos pid;
  uid = uid;
  cgroup_frozen = false;
  cgroup_freeze = false;
  jobctl = 0;
  group_leader = none;
}
