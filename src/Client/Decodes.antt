-- ===== src/Client/Decodes.antt =====
-- The messages of events, as the kernel module puts them together, and the calls that they stand for.
pub mod Reads
pub mod Kinds
pub mod Nests
pub mod Trips
use re_kernel_x.Base.{
  ℕ, ◌+◌, ◌*◌, ◌^◌, ◌<◌, ◌≢◌, Bool, true, false, List, [], ◌∷◌, ◌++◌, length, All, if◌then◌else◌, ℤ,
  IsInt32, signed32, CString, map, Option, none, some,
}
use re_kernel_x.Event.{
  Event, BinderEvent, SignalEvent, NetworkEvent, binder, signal, network, other,
}
use re_kernel_x.Message.{Item, opens, s32, text, closes, payload_of}
use re_kernel_x.Nla.Wire.{Attr, attr, wire, genl_message}
use re_kernel_x.Client.Decodes.Reads.{int_attr}
use re_kernel_x.Client.Events.{Call}

-- An attribute as nla_put_s32 and nla_put_string write it; what opens and closes a nest is not one.
abbrev pub item_attr : Item → Attr
item_attr (s32 type v) = int_attr type v
item_attr (text type v) = attr type (v ++ 0 ∷ [])
item_attr (opens type) = attr 0 []
item_attr closes = attr 0 []

-- A nest; since Linux 5.2, nla_nest_start sets the flag NLA_F_NESTED in its type.
abbrev pub nest : Bool → ℕ → List Attr → Attr
nest flagged type attrs = attr (if flagged then 2 ^ 15 + type else type) (wire attrs)

-- What stands in the nest of an event: that of its kind, with its items.
abbrev pub kind_nest : Bool → Event → List Attr
kind_nest flagged e = elim (payload_of e) [
  | none ↦ []
  | some (type, items) ↦ nest flagged type (map item_attr items) ∷ []
]

-- The message of an event; RKX_C_EVENT and RKX_GENL_VERSION are 1.
abbrev pub event_message : (family flags seq pid : ℕ) → Bool → Event → List ℕ
event_message family flags seq pid flagged e =
    genl_message family flags seq pid 1 1 (wire (nest flagged 1 (kind_nest flagged e) ∷ []))

-- The fields of an event as the callback gets them.
abbrev pub binder_call : BinderEvent → Call
binder_call b =
    Call.binder (signed32 b.binder_type) (signed32 b.oneway) (signed32 b.from_uid) b.from_pid
      (signed32 b.target_uid) b.target_pid b.rpc_name b.code

abbrev pub signal_call : SignalEvent → Call
signal_call s =
    Call.signal s.signal (signed32 s.killer_uid) s.killer_pid (signed32 s.dst_uid) s.dst_pid

abbrev pub network_call : NetworkEvent → Call
network_call n = Call.network (signed32 n.proto) (signed32 n.target_uid) n.data_len

abbrev pub calls_of : Event → List Call
calls_of (binder b) = binder_call b ∷ []
calls_of (signal s) = signal_call s ∷ []
calls_of (network n) = network_call n ∷ []
calls_of (other type) = []

-- Fields within their types, and a name that ends within its array, with no zero in it.
abbrev pub InRange : Event → Type 0
InRange (binder b) =
    (b.binder_type < 2 ^ 32)
    × (b.oneway < 2 ^ 32)
    × IsInt32 b.from_pid
    × (b.from_uid < 2 ^ 32)
    × IsInt32 b.target_pid
    × (b.target_uid < 2 ^ 32)
    × IsInt32 b.code
    × (length b.rpc_name < 140)
    × All (λ c. c ≢ 0) b.rpc_name
InRange (signal s) =
    IsInt32 s.signal
    × IsInt32 s.killer_pid
    × (s.killer_uid < 2 ^ 32)
    × IsInt32 s.dst_pid
    × (s.dst_uid < 2 ^ 32)
InRange (network n) = (n.proto < 2 ^ 32) × (n.target_uid < 2 ^ 32) × IsInt32 n.data_len
InRange (other type) = ⊥
