-- ===== src/Abi/Library.antt =====
-- Develop/rekernel_x/src/main/cpp/rkx_uapi.h: the enumerators' numbers.
use re_kernel_x.Base.{ℕ, CString, codes}
use re_kernel_x.Abi.{
  Cmd, c_unspec, c_event, c_add_monitor_net, c_del_monitor_net, c_add_free_async, c_del_free_async,
  Attribute, a_unspec, a_event, a_binder, a_binder_type, a_binder_oneway, a_binder_from_pid,
  a_binder_from_uid, a_binder_target_pid, a_binder_target_uid, a_binder_code, a_binder_rpc_name,
  a_signal, a_signal_signal, a_signal_killer_pid, a_signal_killer_uid, a_signal_dst_pid,
  a_signal_dst_uid, a_network, a_network_proto, a_network_target_uid, a_network_data_len, a_uid,
  a_free_async_strategy, a_free_async_rpc_name, a_free_async_code, Strategy, free_async_skip,
  free_async_by_code, free_async_by_data, EventType, evt_binder, evt_signal, evt_network,
  BinderType, binder_transaction, binder_reply, binder_free_buffer_full, NetProto, net_proto_ipv4,
  net_proto_ipv6,
}

-- enum rkx_genl_cmd
abbrev pub cmd_number : Cmd → ℕ
cmd_number c_unspec = 0
cmd_number c_event = 1
cmd_number c_add_monitor_net = 2
cmd_number c_del_monitor_net = 3
cmd_number c_add_free_async = 4
cmd_number c_del_free_async = 5

-- enum rkx_genl_attr
abbrev pub attribute_number : Attribute → ℕ
attribute_number a_unspec = 0
attribute_number a_event = 1
attribute_number a_binder = 10
attribute_number a_binder_type = 11
attribute_number a_binder_oneway = 12
attribute_number a_binder_from_pid = 13
attribute_number a_binder_from_uid = 14
attribute_number a_binder_target_pid = 15
attribute_number a_binder_target_uid = 16
attribute_number a_binder_code = 17
attribute_number a_binder_rpc_name = 18
attribute_number a_signal = 20
attribute_number a_signal_signal = 21
attribute_number a_signal_killer_pid = 22
attribute_number a_signal_killer_uid = 23
attribute_number a_signal_dst_pid = 24
attribute_number a_signal_dst_uid = 25
attribute_number a_network = 30
attribute_number a_network_proto = 31
attribute_number a_network_target_uid = 32
attribute_number a_network_data_len = 33
attribute_number a_uid = 40
attribute_number a_free_async_strategy = 41
attribute_number a_free_async_rpc_name = 42
attribute_number a_free_async_code = 43

-- enum rkx_free_async_strategy
abbrev pub strategy_number : Strategy → ℕ
strategy_number free_async_skip = 1
strategy_number free_async_by_code = 2
strategy_number free_async_by_data = 3

-- enum rkx_event_type
abbrev pub event_type_number : EventType → ℕ
event_type_number evt_binder = 1
event_type_number evt_signal = 2
event_type_number evt_network = 3

-- enum rkx_binder_type
abbrev pub binder_type_number : BinderType → ℕ
binder_type_number binder_transaction = 1
binder_type_number binder_reply = 2
binder_type_number binder_free_buffer_full = 3

-- enum rkx_net_proto
abbrev pub net_proto_number : NetProto → ℕ
net_proto_number net_proto_ipv4 = 4
net_proto_number net_proto_ipv6 = 6

-- RKX_C_MAX and RKX_A_MAX
abbrev pub c_max : ℕ
c_max = 5

abbrev pub a_max : ℕ
a_max = 49

-- RKX_GENL_FAMILY_NAME, RKX_GENL_VERSION and RKX_GENL_MCGRP_NAME
abbrev pub genl_family_name : CString
genl_family_name = codes "rekernel_x2"

abbrev pub genl_version : ℕ
genl_version = 1

abbrev pub genl_mcgrp_name : CString
genl_mcgrp_name = codes "events"
