-- ===== src/System.antt =====
-- The module and its client together: LKM-Source/rkx_genl.c and
-- Develop/rekernel_x/src/main/cpp/rkx_jni.cpp on the two ends of a generic netlink socket. The generic
-- netlink core of the kernel, between them, is a parameter.
pub mod Core
pub mod Processes
pub mod Replay
pub mod Effects
pub mod Turns
pub mod Governs
pub mod Hooks
pub mod Arrives
pub mod Polls
use re_kernel_x.Base.{
  ℕ, Bool, true, false, List, [], ◌∷◌, Option, none, some, ◌>>=◌, if◌then◌else◌, ℤ, CString,
}
use re_kernel_x.FreeAsync.{Hash}
use re_kernel_x.Genl.{Tables, doit}
use re_kernel_x.Genl.Policy.{op_of, Payloads, attrs_of}
use re_kernel_x.Client.State.{Client}
use re_kernel_x.Client.Commands.{
  Answers, add_monitor_net, del_monitor_net, add_free_async, del_free_async,
}

-- The number that the core gave the family, and what it makes of a message: it refuses it, or hands it
-- to the handler of its command.
pub record GenlCore : Type 0 where
  pub id : ℕ
  pub admit : List ℕ → Option (ℕ × Payloads)

-- The native methods that send a command, with their arguments; a null name is `none`.
pub data NativeCall : Type 0 where
  monitor : ℤ → NativeCall
  unmonitor : ℤ → NativeCall
  set_rule : Option CString → ℤ → ℤ → NativeCall
  clear_rule : Option CString → ℤ → NativeCall

abbrev pub invoke : Client → Answers → NativeCall → Option (Bool × Client)
invoke s sys (monitor uid) = add_monitor_net s sys uid
invoke s sys (unmonitor uid) = del_monitor_net s sys uid
invoke s sys (set_rule rpc_name code strategy) = add_free_async s sys rpc_name code strategy
invoke s sys (clear_rule rpc_name code) = del_free_async s sys rpc_name code

-- A call, with what the system answers to it and the outcome of kmalloc in the kernel.
pub record Turn : Type 0 where
  pub call : NativeCall
  pub sys : Answers
  pub alloc : Bool

module _ (core : GenlCore) (h : Hash) where
  -- A message at the kernel's end: what the handler returns, if there is one, and the tables.
  unfoldable pub process : Tables → List ℕ → Bool → Option ℤ × Tables
  unfolding doit
  process t message alloc = elim (core.admit message) [
    | none ↦ (none, t)
    | some (cmd, payloads) ↦ elim (op_of cmd) [
      | none ↦ (none, t)
      | some command ↦ let (rc, t') = doit h t command (attrs_of payloads) alloc in (some rc, t')
    ]
  ]

  -- The message that was sent last, if sendto took it.
  abbrev pub deliver : Bool → List (List ℕ) → Tables → Bool → Tables
  deliver false sent t alloc = t
  deliver true [] t alloc = t
  deliver true (message ∷ sent) t alloc = (process t message alloc).1

  -- A call: what it returns, and both ends after it. sendto hands the message to the kernel's end
  -- before it returns, and the methods return true where sendto took the whole message.
  unfoldable pub turn : Client → Tables → Turn → Option (Bool × Client × Tables)
  unfolding process
  turn s t x = invoke s x.sys x.call >>= λ r. some (r.0, r.1, deliver r.0 r.1.sent t x.alloc)

  -- One call after the other.
  unfoldable pub run : Client → Tables → List Turn → Option (List Bool × Client × Tables)
  unfolding turn
  run s t [] = some ([], s, t)
  run s t (x ∷ xs) =
      turn s t x >>= λ r. run r.1 r.2 xs >>= λ rest. some (r.0 ∷ rest.0, rest.1, rest.2)
