-- ===== src/Tests/ArrivesTests.antt =====
-- A transaction with a frozen app, from the hook to the callback.
use re_kernel_x.Base.{
  ℕ, ◌-◌, ◌≡◌, ap, ◌∙◌, Bool, true, List, [], ◌∷◌, ◌++◌, some, arith, length, length-append, take,
}
use re_kernel_x.Message.{Item, opens, closes}
use re_kernel_x.Message.Sends.{encoded}
use re_kernel_x.Netfilter.{Setting}
use re_kernel_x.System.Hooks.{Occasion, transaction, observe}
use re_kernel_x.Base.{All, codes, pos, refl, false}
use re_kernel_x.Event.{Event, binder, signal}
use re_kernel_x.Message.{Outcome, not_allocated, freed, multicasted, send, build, puts}
use re_kernel_x.Frozen.{is_frozen}
use re_kernel_x.Signal.{send_sig_info_hook, signal_event}
use re_kernel_x.Binder.{trans_hook, async_event, copy_from_user, token_name, token_loop}
use re_kernel_x.Client.State.{Client}
use re_kernel_x.Client.Connection.{poll_event}
use re_kernel_x.System.Hooks.{kill}
use re_kernel_x.System.Polls.{Receipt, IsReceipt, Listens, polls_for, calls_for, polls-calls}
use re_kernel_x.Tests.Values.{running_task, frozen_task}
use re_kernel_x.Tests.CommandTests.{connected}
use re_kernel_x.System.Arrives.{bytes_for, Transports, HookArrives, hook-arrives}
use re_kernel_x.Binder.Token.{utf16}
use re_kernel_x.Nla.Builder.Bytes.{take-append}
use re_kernel_x.Tests.Values.{kernel}
use re_kernel_x.Tests.MessageTests.{Skb, netlink, builds}
use re_kernel_x.Tests.BinderTests.{caller, frozen_app, ping}

-- The bytes of a message that holds two nests.
abbrev written : Bool → List Item → List ℕ
written flagged (opens outer ∷ opens type ∷ items) =
    bytes_for 27 flagged type (take (length items - 2) items)
written flagged items = []

written_lem :
    (flagged : Bool) (type : ℕ) (items : List Item)
    → written flagged (encoded type items) ≡ bytes_for 27 flagged type items
written_lem flagged type items =
    let size : length (items ++ closes ∷ closes ∷ []) - 2 ≡ length items =
      omega (arith, length-append items (closes ∷ closes ∷ [])) in
    ap (bytes_for 27 flagged type) (
      ap (λ n. take n (items ++ closes ∷ closes ∷ [])) size
      ∙ take-append items (closes ∷ closes ∷ []))

transports : Transports netlink (λ s. s.room) (λ s. s.items) (λ s. written true s.items) 27 true
transports = record {
  builds = builds;
  writes = λ s e type items kind holds. ap (written true) holds ∙ written_lem true type items;
  no_error = ground arith;
  no_done = ground arith;
}

abbrev setting : Setting
setting = record { ipv6 = true; is_monitored = λ uid. true; ready = true }

abbrev call : Occasion
call = transaction (some frozen_app) caller ping

hook-arrives_example :
    HookArrives netlink
      (λ s. s.room)
      (λ s. s.items)
      (λ s. written true s.items)
      27
      true
      transports
      (observe kernel setting call)
unfolding utf16
hook-arrives_example =
    hook-arrives netlink (λ s. s.room) (λ s. s.items) (λ s. written true s.items) 27 true transports
      kernel setting call
      ((omega arith, omega arith), (omega arith, omega arith), omega arith, omega arith)

abbrev killing : Occasion
killing = kill (pos 9) (some (running_task 100 1000)) (some (frozen_task 200 10100))

abbrev asks : Event
asks = binder (record {
  binder_type = 1;
  oneway = 1;
  from_pid = pos 100;
  from_uid = 1000;
  target_pid = pos 200;
  target_uid = 10100;
  code = pos 3;
  rpc_name = codes "ab";
})

abbrev kills : Event
kills = signal (record {
  signal = pos 9;
  killer_pid = pos 100;
  killer_uid = 1000;
  dst_pid = pos 200;
  dst_uid = 10100;
})

abbrev message_of : Outcome Skb → Skb
message_of not_allocated = record { room = 0; items = [] }
message_of freed = record { room = 0; items = [] }
message_of (multicasted s rc) = s

abbrev receipts : List (Receipt Skb)
receipts =
    (record {
      occasion = call;
      event = asks;
      message = message_of (send netlink asks);
      behind = 7 ∷ [];
    })
    ∷ (record {
      occasion = killing;
      event = kills;
      message = message_of (send netlink kills);
      behind = [];
    })
    ∷ []

are_receipts :
    All
      (IsReceipt netlink
        (λ s. s.room)
        (λ s. s.items)
        (λ s. written true s.items)
        27
        true
        kernel
        setting)
      receipts
unfolding observe trans_hook send_sig_info_hook signal_event is_frozen async_event copy_from_user
    token_name token_loop utf16 send build puts
are_receipts = (
  record {
    occurs = ((omega arith, omega arith), (omega arith, omega arith), omega arith, omega arith);
    hands_over = refl;
    sent = refl;
    short = omega arith;
  },
  (
    record {
      occurs = (omega arith, (omega arith, omega arith), (omega arith, omega arith));
      hands_over = refl;
      sent = refl;
      short = omega arith;
    },
    tt,
  ),
)

abbrev listening : Client
listening = record connected { callback = some 5; global_refs = 5 ∷ [] }

listens : Listens 27 listening
listens = record { connected = refl; of_family = refl; ref = 5; has_callback = refl }

polls-calls_example :
    poll_event listening (
      polls_for netlink
        (λ s. s.room)
        (λ s. s.items)
        (λ s. written true s.items)
        27
        true
        kernel
        setting
        receipts)
    ≡ some (
      calls_for netlink
          (λ s. s.room)
          (λ s. s.items)
          (λ s. written true s.items)
          27
          true
          kernel
          setting
          receipts,
      false,
      listening,
    )
polls-calls_example =
    polls-calls netlink (λ s. s.room) (λ s. s.items) (λ s. written true s.items) 27 true transports
      kernel setting receipts listening listens are_receipts
