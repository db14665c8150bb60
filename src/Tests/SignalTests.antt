-- ===== src/Tests/SignalTests.antt =====
-- The hook of rkx_signal.c and the predicate of rkx_frozen.c on a frozen task.
use re_kernel_x.Base.{◌≡◌, ◌↔◌, refl, true, some, none, pos}
use re_kernel_x.Event.{Event}
use re_kernel_x.Frozen.{is_frozen}
use re_kernel_x.Frozen.Reasons.{Reason, is_frozen_iff}
use re_kernel_x.Signal.{send_sig_info_hook, signal_event, sigkill}
use re_kernel_x.Signal.Reports.{Reported, send_sig_info_hook_iff}
use re_kernel_x.Tests.Values.{kernel, frozen_task, running_task}

keeps_quiet :
    send_sig_info_hook kernel true
      (pos 10)
      (some (running_task 100 1000))
      (some (frozen_task 200 10100))
    ≡ none
unfolding send_sig_info_hook is_frozen
keeps_quiet = refl

is_frozen_iff_example :
    (is_frozen kernel (frozen_task 200 10100) ≡ true) ↔ Reason kernel (frozen_task 200 10100)
is_frozen_iff_example = is_frozen_iff kernel (frozen_task 200 10100)

abbrev kill_event : Event
kill_event = signal_event sigkill (running_task 100 1000) (frozen_task 200 10100)

send_sig_info_hook_iff_example :
    (send_sig_info_hook kernel true sigkill
        (some (running_task 100 1000))
        (some (frozen_task 200 10100))
      ≡ some kill_event)
    ↔ Reported kernel true sigkill
        (some (running_task 100 1000))
        (some (frozen_task 200 10100))
        kill_event
send_sig_info_hook_iff_example =
    send_sig_info_hook_iff kernel true sigkill (some (running_task 100 1000))
      (some (frozen_task 200 10100)) kill_event
