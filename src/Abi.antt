-- ===== src/Abi.antt =====
-- The numbers that the kernel module and its user-space library agree on, LKM-Source/rkx.h (Abi/Module)
-- and Develop/rekernel_x/src/main/cpp/rkx_uapi.h (Abi/Library). The enumerators have the same names in
-- both; here are the names.
pub mod Module
pub mod Library
pub mod Numbers
pub mod Agree

-- enum rkx_genl_cmd
pub data Cmd : Type 0 where
  c_unspec : Cmd
  c_event : Cmd
  c_add_monitor_net : Cmd
  c_del_monitor_net : Cmd
  c_add_free_async : Cmd
  c_del_free_async : Cmd

-- enum rkx_genl_attr
pub data Attribute : Type 0 where
  a_unspec : Attribute
  a_event : Attribute
  a_binder : Attribute
  a_binder_type : Attribute
  a_binder_oneway : Attribute
  a_binder_from_pid : Attribute
  a_binder_from_uid : Attribute
  a_binder_target_pid : Attribute
  a_binder_target_uid : Attribute
  a_binder_code : Attribute
  a_binder_rpc_name : Attribute
  a_signal : Attribute
  a_signal_signal : Attribute
  a_signal_killer_pid : Attribute
  a_signal_killer_uid : Attribute
  a_signal_dst_pid : Attribute
  a_signal_dst_uid : Attribute
  a_network : Attribute
  a_network_proto : Attribute
  a_network_target_uid : Attribute
  a_network_data_len : Attribute
  a_uid : Attribute
  a_free_async_strategy : Attribute
  a_free_async_rpc_name : Attribute
  a_free_async_code : Attribute

-- enum rkx_free_async_strategy
pub data Strategy : Type 0 where
  free_async_skip : Strategy
  free_async_by_code : Strategy
  free_async_by_data : Strategy

-- enum rkx_event_type
pub data EventType : Type 0 where
  evt_binder : EventType
  evt_signal : EventType
  evt_network : EventType

-- enum rkx_binder_type
pub data BinderType : Type 0 where
  binder_transaction : BinderType
  binder_reply : BinderType
  binder_free_buffer_full : BinderType

-- enum rkx_net_proto
pub data NetProto : Type 0 where
  net_proto_ipv4 : NetProto
  net_proto_ipv6 : NetProto
