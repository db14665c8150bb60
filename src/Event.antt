-- ===== src/Event.antt =====
-- The events of LKM-Source/rkx.h that the module reports, and its numbers. An `__s32` or `int` is an
-- integer, an `__u32` or `__u8` a number.
use re_kernel_x.Base.{ℕ, ℤ, CString}
use re_kernel_x.Abi
use re_kernel_x.Abi.Module.{binder_type_number, net_proto_number}

-- RKX_MAX_SYSTEM_UID and RKX_MIN_APP_UID
abbrev pub max_system_uid : ℕ
max_system_uid = 2000

abbrev pub min_app_uid : ℕ
min_app_uid = 10000

-- enum rkx_binder_type
abbrev pub binder_transaction : ℕ
binder_transaction = binder_type_number Abi.binder_transaction

abbrev pub binder_reply : ℕ
binder_reply = binder_type_number Abi.binder_reply

abbrev pub binder_free_buffer_full : ℕ
binder_free_buffer_full = binder_type_number Abi.binder_free_buffer_full

-- enum rkx_net_proto
abbrev pub proto_ipv4 : ℕ
proto_ipv4 = net_proto_number Abi.net_proto_ipv4

abbrev pub proto_ipv6 : ℕ
proto_ipv6 = net_proto_number Abi.net_proto_ipv6

pub record BinderEvent : Type 0 where
  pub binder_type : ℕ
  pub oneway : ℕ
  pub from_pid : ℤ
  pub from_uid : ℕ
  pub target_pid : ℤ
  pub target_uid : ℕ
  pub code : ℤ
  pub rpc_name : CString

pub record SignalEvent : Type 0 where
  pub signal : ℤ
  pub killer_pid : ℤ
  pub killer_uid : ℕ
  pub dst_pid : ℤ
  pub dst_uid : ℕ

pub record NetworkEvent : Type 0 where
  pub proto : ℕ
  pub target_uid : ℕ
  pub data_len : ℤ

-- struct rkx_event: the tag with the member of the union that it selects; `other` is a tag of none
-- of the three.
pub data Event : Type 0 where
  binder : BinderEvent → Event
  signal : SignalEvent → Event
  network : NetworkEvent → Event
  other : ℕ → Event
