-- ===== src/System/Hooks/Clean.antt =====
-- No hook reads out of bounds or hands over an event that does not fit its message.
use re_kernel_x.Base.{sym, ltb, leb}
use mathlib.Core.Path.{subst}
use re_kernel_x.Event.{max_system_uid, min_app_uid}
use re_kernel_x.Frozen.{Kernel}
use re_kernel_x.Binder.{frozen_target, reply_hook}
use re_kernel_x.Binder.Hooks.{trans_hook_lem}
use re_kernel_x.Netfilter.{Setting}
use re_kernel_x.System.Hooks.{
  Occasion, buffer, reply, transaction, kill, packet, observe, IsClean, IsOccasion,
}
use re_kernel_x.System.Hooks.Binders.{
  frozen_target-IsPair?, trans_report-IsClean, reply_report-IsClean, alloc_hook-IsClean,
}
use re_kernel_x.System.Hooks.Packets.{kill-IsClean, packet-IsClean}

-- On every call with values of the kernel's types, no hook reads out of bounds, and an event that it
-- hands over has its fields in their ranges.
pub observe-IsClean :
    (k : Kernel) (c : Setting) (o : Occasion) → IsOccasion o → IsClean (observe k c o)
unfolding observe
observe-IsClean k c (buffer size buffer_size space is_async p current) is =
    alloc_hook-IsClean k c.ready size buffer_size space is_async p current is.0 is.1
observe-IsClean k c (reply target proc) is =
    unfold reply_hook in
    reply_report-IsClean k c.ready (frozen_target k (λ uid. leb uid max_system_uid) target proc)
      (frozen_target-IsPair? k c.ready (λ uid. leb uid max_system_uid) target proc is.0 is.1)
observe-IsClean k c (transaction target proc tr) (t, p, bytes, small) =
    subst IsClean (sym (trans_hook_lem k c.ready target proc tr bytes)) (
      trans_report-IsClean k c.ready (frozen_target k (λ uid. ltb min_app_uid uid) target proc) tr
        (frozen_target-IsPair? k c.ready (λ uid. ltb min_app_uid uid) target proc t p) small)
observe-IsClean k c (kill sig killer dst) (i, a, b) = kill-IsClean k c.ready sig killer dst i a b
observe-IsClean k c (packet p state sk) (ok, small) = packet-IsClean p ok c state sk small
