-- ===== src/Abi/Numbers.antt =====
-- The numbers of the two headers, enumerator by enumerator: they are the same, and lead back to it.
use re_kernel_x.Base.{
  ℕ, ◌≤◌, ◌≡◌, refl, List, [], ◌∷◌, Option, none, some, if◌then◌else◌, ◌==◌, arith,
}
use re_kernel_x.Abi.Module
use re_kernel_x.Abi.Library
use re_kernel_x.Abi.{
  Cmd, c_unspec, c_event, c_add_monitor_net, c_del_monitor_net, c_add_free_async, c_del_free_async,
  Attribute, a_unspec, a_event, a_binder, a_binder_type, a_binder_oneway, a_binder_from_pid,
  a_binder_from_uid, a_binder_target_pid, a_binder_target_uid, a_binder_code, a_binder_rpc_name,
  a_signal, a_signal_signal, a_signal_killer_pid, a_signal_killer_uid, a_signal_dst_pid,
  a_signal_dst_uid, a_network, a_network_proto, a_network_target_uid, a_network_data_len, a_uid,
  a_free_async_strategy, a_free_async_rpc_name, a_free_async_code, Strategy, free_async_skip,
  free_async_by_code, free_async_by_data, EventType, evt_binder, evt_signal, evt_network,
  BinderType, binder_transaction, binder_reply, binder_free_buffer_full, NetProto, net_proto_ipv4,
  net_proto_ipv6,
}

-- The enumerator with a number, by the numbers of a header.
abbrev pub named : {A : Type 0} → (A → ℕ) → List A → ℕ → Option A
named number [] n = none
named number (a ∷ as') n = if number a == n then some a else named number as' n

abbrev pub all_cmd_number : List Cmd
all_cmd_number =
    c_unspec ∷ c_event ∷ c_add_monitor_net ∷ c_del_monitor_net ∷ c_add_free_async ∷ c_del_free_async
    ∷ []

pub same_cmd_number : (a : Cmd) → Module.cmd_number a ≡ Library.cmd_number a
same_cmd_number c_unspec = refl
same_cmd_number c_event = refl
same_cmd_number c_add_monitor_net = refl
same_cmd_number c_del_monitor_net = refl
same_cmd_number c_add_free_async = refl
same_cmd_number c_del_free_async = refl

pub named_cmd_number :
    (a : Cmd) → named Module.cmd_number all_cmd_number (Module.cmd_number a) ≡ some a
named_cmd_number c_unspec = refl
named_cmd_number c_event = refl
named_cmd_number c_add_monitor_net = refl
named_cmd_number c_del_monitor_net = refl
named_cmd_number c_add_free_async = refl
named_cmd_number c_del_free_async = refl

abbrev pub all_attribute_number : List Attribute
all_attribute_number =
    a_unspec ∷ a_event ∷ a_binder ∷ a_binder_type ∷ a_binder_oneway ∷ a_binder_from_pid
    ∷ a_binder_from_uid ∷ a_binder_target_pid ∷ a_binder_target_uid ∷ a_binder_code
    ∷ a_binder_rpc_name ∷ a_signal ∷ a_signal_signal ∷ a_signal_killer_pid ∷ a_signal_killer_uid
    ∷ a_signal_dst_pid ∷ a_signal_dst_uid ∷ a_network ∷ a_network_proto ∷ a_network_target_uid
    ∷ a_network_data_len ∷ a_uid ∷ a_free_async_strategy ∷ a_free_async_rpc_name ∷ a_free_async_code
    ∷ []

pub same_attribute_number : (a : Attribute) → Module.attribute_number a ≡ Library.attribute_number a
same_attribute_number a_unspec = refl
same_attribute_number a_event = refl
same_attribute_number a_binder = refl
same_attribute_number a_binder_type = refl
same_attribute_number a_binder_oneway = refl
same_attribute_number a_binder_from_pid = refl
same_attribute_number a_binder_from_uid = refl
same_attribute_number a_binder_target_pid = refl
same_attribute_number a_binder_target_uid = refl
same_attribute_number a_binder_code = refl
same_attribute_number a_binder_rpc_name = refl
same_attribute_number a_signal = refl
same_attribute_number a_signal_signal = refl
same_attribute_number a_signal_killer_pid = refl
same_attribute_number a_signal_killer_uid = refl
same_attribute_number a_signal_dst_pid = refl
same_attribute_number a_signal_dst_uid = refl
same_attribute_number a_network = refl
same_attribute_number a_network_proto = refl
same_attribute_number a_network_target_uid = refl
same_attribute_number a_network_data_len = refl
same_attribute_number a_uid = refl
same_attribute_number a_free_async_strategy = refl
same_attribute_number a_free_async_rpc_name = refl
same_attribute_number a_free_async_code = refl

pub named_attribute_number :
    (a : Attribute)
    → named Module.attribute_number all_attribute_number (Module.attribute_number a) ≡ some a
named_attribute_number a_unspec = refl
named_attribute_number a_event = refl
named_attribute_number a_binder = refl
named_attribute_number a_binder_type = refl
named_attribute_number a_binder_oneway = refl
named_attribute_number a_binder_from_pid = refl
named_attribute_number a_binder_from_uid = refl
named_attribute_number a_binder_target_pid = refl
named_attribute_number a_binder_target_uid = refl
named_attribute_number a_binder_code = refl
named_attribute_number a_binder_rpc_name = refl
named_attribute_number a_signal = refl
named_attribute_number a_signal_signal = refl
named_attribute_number a_signal_killer_pid = refl
named_attribute_number a_signal_killer_uid = refl
named_attribute_number a_signal_dst_pid = refl
named_attribute_number a_signal_dst_uid = refl
named_attribute_number a_network = refl
named_attribute_number a_network_proto = refl
named_attribute_number a_network_target_uid = refl
named_attribute_number a_network_data_len = refl
named_attribute_number a_uid = refl
named_attribute_number a_free_async_strategy = refl
named_attribute_number a_free_async_rpc_name = refl
named_attribute_number a_free_async_code = refl

abbrev pub all_strategy_number : List Strategy
all_strategy_number = free_async_skip ∷ free_async_by_code ∷ free_async_by_data ∷ []

pub same_strategy_number : (a : Strategy) → Module.strategy_number a ≡ Library.strategy_number a
same_strategy_number free_async_skip = refl
same_strategy_number free_async_by_code = refl
same_strategy_number free_async_by_data = refl

pub named_strategy_number :
    (a : Strategy)
    → named Module.strategy_number all_strategy_number (Module.strategy_number a) ≡ some a
named_strategy_number free_async_skip = refl
named_strategy_number free_async_by_code = refl
named_strategy_number free_async_by_data = refl

abbrev pub all_event_type_number : List EventType
all_event_type_number = evt_binder ∷ evt_signal ∷ evt_network ∷ []

pub same_event_type_number :
    (a : EventType) → Module.event_type_number a ≡ Library.event_type_number a
same_event_type_number evt_binder = refl
same_event_type_number evt_signal = refl
same_event_type_number evt_network = refl

pub named_event_type_number :
    (a : EventType)
    → named Module.event_type_number all_event_type_number (Module.event_type_number a) ≡ some a
named_event_type_number evt_binder = refl
named_event_type_number evt_signal = refl
named_event_type_number evt_network = refl

abbrev pub all_binder_type_number : List BinderType
all_binder_type_number = binder_transaction ∷ binder_reply ∷ binder_free_buffer_full ∷ []

pub same_binder_type_number :
    (a : BinderType) → Module.binder_type_number a ≡ Library.binder_type_number a
same_binder_type_number binder_transaction = refl
same_binder_type_number binder_reply = refl
same_binder_type_number binder_free_buffer_full = refl

pub named_binder_type_number :
    (a : BinderType)
    → named Module.binder_type_number all_binder_type_number (Module.binder_type_number a) ≡ some a
named_binder_type_number binder_transaction = refl
named_binder_type_number binder_reply = refl
named_binder_type_number binder_free_buffer_full = refl

abbrev pub all_net_proto_number : List NetProto
all_net_proto_number = net_proto_ipv4 ∷ net_proto_ipv6 ∷ []

pub same_net_proto_number : (a : NetProto) → Module.net_proto_number a ≡ Library.net_proto_number a
same_net_proto_number net_proto_ipv4 = refl
same_net_proto_number net_proto_ipv6 = refl

pub named_net_proto_number :
    (a : NetProto)
    → named Module.net_proto_number all_net_proto_number (Module.net_proto_number a) ≡ some a
named_net_proto_number net_proto_ipv4 = refl
named_net_proto_number net_proto_ipv6 = refl

pub attribute_max : (a : Attribute) → Module.attribute_number a ≤ Library.a_max
attribute_max a_unspec = omega arith
attribute_max a_event = omega arith
attribute_max a_binder = omega arith
attribute_max a_binder_type = omega arith
attribute_max a_binder_oneway = omega arith
attribute_max a_binder_from_pid = omega arith
attribute_max a_binder_from_uid = omega arith
attribute_max a_binder_target_pid = omega arith
attribute_max a_binder_target_uid = omega arith
attribute_max a_binder_code = omega arith
attribute_max a_binder_rpc_name = omega arith
attribute_max a_signal = omega arith
attribute_max a_signal_signal = omega arith
attribute_max a_signal_killer_pid = omega arith
attribute_max a_signal_killer_uid = omega arith
attribute_max a_signal_dst_pid = omega arith
attribute_max a_signal_dst_uid = omega arith
attribute_max a_network = omega arith
attribute_max a_network_proto = omega arith
attribute_max a_network_target_uid = omega arith
attribute_max a_network_data_len = omega arith
attribute_max a_uid = omega arith
attribute_max a_free_async_strategy = omega arith
attribute_max a_free_async_rpc_name = omega arith
attribute_max a_free_async_code = omega arith
