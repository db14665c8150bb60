-- ===== src/Message.antt =====
-- LKM-Source/rkx_genl.c, rkx_send_message: the message that an event becomes. The functions of the
-- kernel that build a message are a parameter.
pub mod Sends
use re_kernel_x.Base.{
  ℕ, suc, ◌+◌, ◌*◌, ◌/◌, ◌^◌, Bool, true, false, ◌&&◌, not, List, [], ◌∷◌, Option, none, some,
  ◌>>=◌, if◌then◌else◌, ℤ, pos, negsuc, eq_ℤ, signed32, CString, length, rkx_error,
}
use re_kernel_x.Abi.Module.{attribute_number, cmd_number}
use re_kernel_x.Abi.{
  a_binder, a_binder_code, a_binder_from_pid, a_binder_from_uid, a_binder_oneway, a_binder_rpc_name,
  a_binder_target_pid, a_binder_target_uid, a_binder_type, a_event, a_network, a_network_data_len,
  a_network_proto, a_network_target_uid, a_signal, a_signal_dst_pid, a_signal_dst_uid,
  a_signal_killer_pid, a_signal_killer_uid, a_signal_signal, c_event,
}
use re_kernel_x.Event.{
  BinderEvent, SignalEvent, NetworkEvent, Event, binder, signal, network, other,
}

-- The attributes that are put into a message, by their number, and the ends of nests.
pub data Item : Type 0 where
  opens : ℕ → Item
  s32 : ℕ → ℤ → Item
  text : ℕ → CString → Item
  closes : Item

-- genlmsg_new, genlmsg_put, nla_nest_start, nla_put_s32, nla_put_string, nla_nest_end (of the nest
-- that was opened last), genlmsg_end and genlmsg_multicast.
pub record Netlink (Skb : Type 0) : Type 0 where
  pub new : ℕ → Option Skb
  pub put_header : Skb → ℕ → Option Skb
  pub nest_start : Skb → ℕ → Option Skb
  pub put_s32 : Skb → ℕ → ℤ → Option Skb
  pub put_string : Skb → ℕ → CString → Option Skb
  pub nest_end : Skb → Skb
  pub message_end : Skb → Skb
  pub multicast : Skb → ℤ

abbrev pub esrch : ℤ
esrch = negsuc 2

-- nla_total_size
abbrev pub nla_total_size : ℕ → ℕ
nla_total_size payload = (4 + payload + 3) / 4 * 4

-- The attributes of each kind of event, in the order of the code.
abbrev pub binder_items : BinderEvent → List Item
binder_items b =
    s32 (attribute_number a_binder_type) (signed32 b.binder_type)
    ∷ s32 (attribute_number a_binder_oneway) (signed32 b.oneway)
    ∷ s32 (attribute_number a_binder_from_pid) b.from_pid
    ∷ s32 (attribute_number a_binder_from_uid) (signed32 b.from_uid)
    ∷ s32 (attribute_number a_binder_target_pid) b.target_pid
    ∷ s32 (attribute_number a_binder_target_uid) (signed32 b.target_uid)
    ∷ s32 (attribute_number a_binder_code) b.code
    ∷ text (attribute_number a_binder_rpc_name) b.rpc_name
    ∷ []

abbrev pub signal_items : SignalEvent → List Item
signal_items s =
    s32 (attribute_number a_signal_signal) s.signal
    ∷ s32 (attribute_number a_signal_killer_pid) s.killer_pid
    ∷ s32 (attribute_number a_signal_killer_uid) (signed32 s.killer_uid)
    ∷ s32 (attribute_number a_signal_dst_pid) s.dst_pid
    ∷ s32 (attribute_number a_signal_dst_uid) (signed32 s.dst_uid)
    ∷ []

abbrev pub network_items : NetworkEvent → List Item
network_items n =
    s32 (attribute_number a_network_proto) (signed32 n.proto)
    ∷ s32 (attribute_number a_network_target_uid) (signed32 n.target_uid)
    ∷ s32 (attribute_number a_network_data_len) n.data_len
    ∷ []

-- The switch on the type: the number of the nest and what is put into it.
abbrev pub payload_of : Event → Option (ℕ × List Item)
payload_of (binder b) = some (attribute_number a_binder, binder_items b)
payload_of (signal s) = some (attribute_number a_signal, signal_items s)
payload_of (network n) = some (attribute_number a_network, network_items n)
payload_of (other type) = none

-- What became of the message.
pub data Outcome (Skb : Type 0) : Type 0 where
  not_allocated : Outcome Skb
  freed : Outcome Skb
  multicasted : Skb → ℤ → Outcome Skb

module _ {Skb : Type 0} (nl : Netlink Skb) where
  abbrev pub put : Skb → Item → Option Skb
  put s (opens type) = nl.nest_start s type
  put s (s32 type v) = nl.put_s32 s type v
  put s (text type v) = nl.put_string s type v
  put s closes = some (nl.nest_end s)

  -- A chain of `||`, which ends at the first failure.
  unfoldable pub puts : Skb → List Item → Option Skb
  puts s [] = some s
  puts s (x ∷ xs) = put s x >>= λ s'. puts s' xs

  -- From nla_nest_start(skb, RKX_A_EVENT) to genlmsg_end; `none` is the label nla_fail.
  unfoldable pub build : Skb → Event → Option Skb
  unfolding puts
  build s e = nl.nest_start s (attribute_number a_event) >>= λ evt. elim (payload_of e) [
    | none ↦ none
    | some (type, items) ↦ nl.nest_start evt type >>= λ payload.
        puts payload items >>= λ done. some (nl.message_end (nl.nest_end (nl.nest_end done)))
  ]

  unfoldable pub send : Event → Outcome Skb
  unfolding build
  send e = elim (nl.new (nla_total_size 256)) [
    | none ↦ not_allocated
    | some skb ↦ elim (nl.put_header skb (cmd_number c_event)) [
      | none ↦ freed
      | some head ↦ elim (build head e) [
        | none ↦ freed
        | some whole ↦ multicasted whole (nl.multicast whole)
      ]
    ]
  ]

  -- What rkx_send_message returns.
  abbrev pub result : Outcome Skb → ℤ
  result not_allocated = rkx_error
  result freed = rkx_error
  result (multicasted s rc) =
      if not (eq_ℤ rc (pos 0)) && not (eq_ℤ rc esrch) then rkx_error else pos 0

  unfoldable pub send_message : Event → ℤ
  unfolding send
  send_message e = result (send e)
