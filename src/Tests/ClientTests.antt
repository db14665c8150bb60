-- ===== src/Tests/ClientTests.antt =====
-- The user-space end on messages of the module.
use re_kernel_x.Base.{
  length, true, false, ◌++◌, ℕ, ◌≡◌, refl, List, [], ◌∷◌, some, arith, pos, minus_one,
}
use re_kernel_x.Nla.{parse, parse_loop, parse_nested}
use re_kernel_x.Nla.Bounds.{IsBytes, all_bytes-IsBytes}
use re_kernel_x.Client.Events.{handle_event, handle_attrs, handle_evt, handle_signal_event, signal}
use re_kernel_x.Event.{binder, network}
use re_kernel_x.Client.Decodes.{calls_of, InRange}
use re_kernel_x.Client.Messages.{dispatch}
use re_kernel_x.Client.Messages.Batch.{Sent, bytes_of, datagram, all_calls, datagram-calls}
use re_kernel_x.Client.Messages.Stale.{stale_calls}
use re_kernel_x.Client.Safe.{Ends, handle_event-Ends}

-- A signal event with the signal only.
abbrev killed : List ℕ
killed =
    36 ∷ 0 ∷ 0 ∷ 0 ∷ 27 ∷ 0 ∷ 0 ∷ 0 ∷ 0 ∷ 0 ∷ 0 ∷ 0 ∷ 0 ∷ 0 ∷ 0 ∷ 0 ∷ 1 ∷ 1 ∷ 0 ∷ 0 ∷ 16 ∷ 0 ∷ 1
    ∷ 128 ∷ 12 ∷ 0 ∷ 20 ∷ 128 ∷ 8 ∷ 0 ∷ 21 ∷ 0 ∷ 9 ∷ 0 ∷ 0 ∷ 0 ∷ []

calls_signal :
    handle_event 27 killed 0 ≡ some (signal (pos 9) minus_one minus_one minus_one minus_one ∷ [])
unfolding handle_event handle_attrs handle_evt parse parse_loop parse_nested handle_signal_event
calls_signal = refl

killed-IsBytes : IsBytes killed
killed-IsBytes = all_bytes-IsBytes killed refl

handle_event-Ends_example : Ends (handle_event 27 killed 0)
handle_event-Ends_example =
    handle_event-Ends killed killed-IsBytes 27 0 36 refl (omega arith) (omega arith)

abbrev thaw : Sent
thaw = record {
  flags = 0;
  seq = 0;
  pid = 0;
  flagged = true;
  event = binder (record {
    binder_type = 1;
    oneway = 0;
    from_pid = pos 100;
    from_uid = 10001;
    target_pid = pos 200;
    target_uid = 10002;
    code = pos 5;
    rpc_name = 97 ∷ 46 ∷ 73 ∷ [];
  });
}

abbrev packet : Sent
packet = record {
  flags = 0;
  seq = 0;
  pid = 0;
  flagged = false;
  event = network (record { proto = 4; target_uid = 10002; data_len = pos 1400 });
}

thaw-InRange : InRange thaw.event
thaw-InRange = (
  omega arith,
  omega arith,
  omega arith,
  omega arith,
  omega arith,
  omega arith,
  omega arith,
  omega arith,
  (λ e. absurd (omega arith), (λ e. absurd (omega arith), (λ e. absurd (omega arith), tt))),
)

packet-InRange : InRange packet.event
packet-InRange = (omega arith, omega arith, omega arith)

-- Two messages, and what an earlier datagram left.
abbrev both : List Sent
both = thaw ∷ packet ∷ []

datagram-calls_example :
    dispatch 27 (datagram 27 both ++ 9 ∷ 9 ∷ []) (length (datagram 27 both)) ≡ some (all_calls both)
datagram-calls_example =
    datagram-calls both 27 (datagram 27 both ++ 9 ∷ 9 ∷ []) (9 ∷ 9 ∷ []) refl (omega arith)
      (thaw-InRange, (packet-InRange, tt)) (λ e. absurd (omega arith)) (λ e. absurd (omega arith))

-- NLMSG_DONE with 17 bytes, before what is left of an earlier datagram.
abbrev short_one : List ℕ
short_one = 17 ∷ 0 ∷ 0 ∷ 0 ∷ 3 ∷ 0 ∷ 0 ∷ 0 ∷ 0 ∷ 0 ∷ 0 ∷ 0 ∷ 0 ∷ 0 ∷ 0 ∷ 0 ∷ 0 ∷ 0 ∷ 0 ∷ 0 ∷ []

abbrev leftover : List ℕ
leftover = short_one ++ (bytes_of 27 packet ++ 0 ∷ 0 ∷ 0 ∷ 0 ∷ [])

done_is_quiet : handle_event 27 leftover 0 ≡ some []
unfolding handle_event
done_is_quiet = refl

stale_calls_example : dispatch 27 leftover 17 ≡ some ([] ++ calls_of packet.event)
stale_calls_example =
    stale_calls 27 17 leftover short_one [] packet [] refl (omega arith) (omega arith)
      (λ e. absurd (omega arith)) done_is_quiet refl refl packet-InRange (λ e. absurd (omega arith))
      (λ e. absurd (omega arith))
