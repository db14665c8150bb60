-- ===== src/System/Hooks.antt =====
-- The hooks of LKM-Source/rkx_binder.c, rkx_signal.c and rkx_netfilter.c together: what each of them may
-- hand to rkx_send_message.
pub mod Binders
pub mod Packets
pub mod Clean
use re_kernel_x.Base.{
  ℕ, ◌+◌, ◌*◌, ◌-◌, ◌%◌, ◌^◌, ◌≤◌, ◌<◌, ◌≡◌, ◌≢◌, refl, sym, Bool, true, false, ◌&&◌, ◌||◌, not,
  List, [], ◌∷◌, Option, none, some, ◌>>=◌, arith, if◌then◌else◌, ◌==◌, ltb, leb, length,
  length-take, take, drop, All, Bool-cases, Option-cases, inl, inr, ℤ, pos, eq_ℤ, sub_ℕ, signed32,
  minus_one, IsInt32, CString, codes,
}
use mathlib.Core.Path.{subst}
use re_kernel_x.Event.{
  Event, binder_transaction, binder_reply, binder_free_buffer_full, max_system_uid, min_app_uid,
}
use re_kernel_x.Frozen.{Kernel, Task, is_frozen}
use re_kernel_x.Binder.{
  warn_ahead_space, BinderProc, TransactionData, parcel_offset, buf_data_size, token_size,
  copy_from_user, is_one_way, proc_event, send_if, frozen_target, alloc_hook, reply_hook,
  trans_hook,
}
use re_kernel_x.Binder.Token.{low_bytes, token_of, token_of-length}
use re_kernel_x.Binder.Hooks.{HasBytes, trans_report, trans_hook_lem}
use re_kernel_x.Signal.{is_fatal, send_sig_info_hook, signal_event}
use re_kernel_x.Netfilter.{Packet, HookState, Sock, Setting, sock_to_uid, report, local_in_hook}
use re_kernel_x.Netfilter.Bounds.{verdict}
use re_kernel_x.Netfilter.Hook.{IsPacket, segment, local_in_hook_lem, passes}
use re_kernel_x.Client.Decodes.{InRange}
use re_kernel_x.Client.Decodes.Reads.{signed32-IsInt32}

-- The calls of the hooks, with what they are given.
pub data Occasion : Type 0 where
  buffer :
      (size buffer_size : ℕ) (space : Option ℕ) (is_async : Bool) (p : Option Task) (current : Task)
      → Occasion
  reply : (target : Option BinderProc) (proc : BinderProc) → Occasion
  transaction : (target : Option BinderProc) (proc : BinderProc) (tr : TransactionData) → Occasion
  kill : (sig : ℤ) (killer dst : Option Task) → Occasion
  packet : (p : Packet) (state : HookState) (sk : Sock) → Occasion

-- What a hook hands over; the outer `none` is a read out of bounds.
unfoldable pub observe : Kernel → Setting → Occasion → Option (Option Event)
unfolding alloc_hook reply_hook trans_hook send_sig_info_hook local_in_hook
observe k c (buffer size buffer_size space is_async p current) =
    some (alloc_hook k c.ready size buffer_size space is_async p current)
observe k c (reply target proc) = some (reply_hook k c.ready target proc)
observe k c (transaction target proc tr) = trans_hook k c.ready target proc tr
observe k c (kill sig killer dst) = some (send_sig_info_hook k c.ready sig killer dst)
observe k c (packet p state sk) = local_in_hook c (some p) (some state) (some sk)

-- No read out of bounds, and an event that is handed over has its fields in their ranges.
abbrev pub IsClean : Option (Option Event) → Type 0
IsClean none = ⊥
IsClean (some none) = Unit {0}
IsClean (some (some e)) = InRange e

-- Values of the kernel's types: a tgid is an int, a uid 32 bits.
abbrev pub IsTask : Task → Type 0
IsTask t = IsInt32 t.tgid × (t.uid < 2 ^ 32)

abbrev pub IsTask? : Option Task → Type 0
IsTask? none = Unit {0}
IsTask? (some t) = IsTask t

abbrev pub IsProc? : Option BinderProc → Type 0
IsProc? none = Unit {0}
IsProc? (some proc) = IsTask? proc.tsk

abbrev pub IsOccasion : Occasion → Type 0
IsOccasion (buffer size buffer_size space is_async p current) = IsTask? p × IsTask current
IsOccasion (reply target proc) = IsProc? target × IsTask? proc.tsk
IsOccasion (transaction target proc tr) =
    IsProc? target × IsTask? proc.tsk × HasBytes tr × (tr.code < 2 ^ 32)
IsOccasion (kill sig killer dst) = IsInt32 sig × IsTask? killer × IsTask? dst
IsOccasion (packet p state sk) = IsPacket p × (sock_to_uid (some sk) < 2 ^ 32)
