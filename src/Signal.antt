-- ===== src/Signal.antt =====
-- LKM-Source/rkx_signal.c: the hook on do_send_sig_info. A hook returns the event that it hands to
-- rkx_send_message, if it hands over one; it does not look at what the call returns.
pub mod Reports
use re_kernel_x.Base.{Bool, ◌&&◌, ◌||◌, Option, none, some, if◌then◌else◌, ℤ, pos, eq_ℤ}
use re_kernel_x.Event.{Event, signal}
use re_kernel_x.Frozen.{Kernel, Task, is_frozen}

-- SIGQUIT, SIGABRT, SIGKILL, SIGTERM
abbrev pub sigquit : ℤ
sigquit = pos 3

abbrev pub sigabrt : ℤ
sigabrt = pos 6

abbrev pub sigkill : ℤ
sigkill = pos 9

abbrev pub sigterm : ℤ
sigterm = pos 15

abbrev pub is_fatal : ℤ → Bool
is_fatal sig = eq_ℤ sig sigkill || eq_ℤ sig sigterm || eq_ℤ sig sigabrt || eq_ℤ sig sigquit

unfoldable pub signal_event : ℤ → Task → Task → Event
signal_event sig killer dst = signal (record {
  signal = sig;
  killer_pid = killer.tgid;
  killer_uid = killer.uid;
  dst_pid = dst.tgid;
  dst_uid = dst.uid;
})

module _ (k : Kernel) where
  unfoldable pub send_sig_info_hook : Bool → ℤ → Option Task → Option Task → Option Event
  send_sig_info_hook ready sig none dst = none
  send_sig_info_hook ready sig (some killer) none = none
  send_sig_info_hook ready sig (some killer) (some dst) =
      if is_frozen k dst && is_fatal sig
      then (if ready then some (signal_event sig killer dst) else none)
      else none
