-- ===== src/Tests/BinderTests.antt =====
-- The hooks of rkx_binder.c on a call of a frozen app.
use re_kernel_x.Base.{
  ◌≡◌, ◌↔◌, refl, true, Option, [], ◌∷◌, none, some, arith, length, replicate, take, pos, codes,
  minus_one,
}
use re_kernel_x.Event.{Event, binder_free_buffer_full}
use re_kernel_x.Binder.{
  BinderProc, TransactionData, trans_hook, reply_hook, alloc_hook, proc_event, token_name,
  token_loop, async_event, copy_from_user,
}
use re_kernel_x.Binder.Token.{utf16, parcel, copied, token_name-parcel}
use re_kernel_x.Binder.Hooks.{unreported_between}
use re_kernel_x.Binder.Reports.{between, Reported, trans_hook_iff}
use re_kernel_x.Frozen.{is_frozen}
use re_kernel_x.Tests.Values.{kernel, frozen_task, running_task}

abbrev pub caller : BinderProc
caller = record { tsk = some (running_task 100 1000); pid = pos 100 }

abbrev pub frozen_app : BinderProc
frozen_app = record { tsk = some (frozen_task 200 10100); pid = pos 200 }

abbrev first_app : BinderProc
first_app = record { tsk = some (frozen_task 300 10000); pid = pos 300 }

abbrev pub ping : TransactionData
ping = record {
  flags = 1;
  code = 3;
  data_size = 32;
  user_bytes = parcel (replicate 16 9) (codes "ab") (replicate 10 0);
  access_ok = true;
  left_over = 0;
}

-- It is reported, with its name.
ping_sends :
    trans_hook kernel true (some frozen_app) caller ping
    ≡ some (some (between (running_task 100 1000) (frozen_task 200 10100) 1 (pos 3) (codes "ab")))
unfolding utf16 trans_hook async_event is_frozen token_name token_loop copy_from_user
ping_sends = refl

trans_hook_iff_example :
    ((r : Option Event) × (trans_hook kernel true (some frozen_app) caller ping ≡ some r))
    × ((e : Event)
        → (trans_hook kernel true (some frozen_app) caller ping ≡ some (some e))
          ↔ Reported kernel true (some frozen_app) caller ping e)
unfolding utf16
trans_hook_iff_example = trans_hook_iff kernel true (some frozen_app) caller ping (omega arith)

-- The hook on buffers does report such an app.
full_buffer :
    alloc_hook kernel true 100 50
      (some 0)
      true
      (some (frozen_task 300 10000))
      (running_task 100 1000)
    ≡ some (
        proc_event binder_free_buffer_full 1
          (running_task 100 1000)
          (frozen_task 300 10000)
          minus_one
          (codes "FREE_BUFFER_FULL"))
unfolding alloc_hook is_frozen
full_buffer = refl

unreported_between_example :
    (trans_hook kernel true (some first_app) caller ping ≡ some none)
    × (reply_hook kernel true (some first_app) caller ≡ none)
unreported_between_example =
    unreported_between kernel true first_app caller (frozen_task 300 10000) ping refl (omega arith)
      (omega arith)

token_name-parcel_example :
    let buf = copied (parcel (replicate 16 9) (codes "ab") (1 ∷ [])) in
    token_name buf (length buf) ≡ some (take 62 (codes "ab"))
token_name-parcel_example =
    token_name-parcel (replicate 16 9) (codes "ab") (1 ∷ []) refl (omega arith)
