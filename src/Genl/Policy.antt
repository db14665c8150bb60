-- ===== src/Genl/Policy.antt =====
-- LKM-Source/rkx_genl.c, rkx_genl_policy and rkx_genl_ops: which attributes the module wants the
-- generic netlink core to check and how, which command goes to which handler, and how the handlers read
-- the attributes that they are given.
use re_kernel_x.Base.{ℕ, ◌-◌, Option, none, some, ◌>>=◌, if◌then◌else◌, ◌==◌, List, get_elem?}
use re_kernel_x.Abi.Module.{attribute_number, cmd_number}
use re_kernel_x.Abi.{
  a_event, a_free_async_code, a_free_async_rpc_name, a_free_async_strategy, a_uid, c_add_free_async,
  c_add_monitor_net, c_del_free_async, c_del_monitor_net,
}
use re_kernel_x.FreeAsync.{buff_size}
use re_kernel_x.Nla.{le32, s32_at}
use re_kernel_x.Client.Events.{c_string}
use re_kernel_x.Genl.{Attrs, Command, add_monitor_net, del_monitor, add_rule, del_rule}

-- NLA_NESTED, NLA_U32, NLA_U8, NLA_NUL_STRING with its `len`, and NLA_S32
pub data Check : Type 0 where
  nested : Check
  u32 : Check
  u8 : Check
  nul_string : ℕ → Check
  s32 : Check

-- rkx_genl_policy
abbrev pub policy : ℕ → Option Check
policy type =
    if type == attribute_number a_event
    then some nested
    else if type == attribute_number a_uid
    then some u32
    else if type == attribute_number a_free_async_strategy
    then some u8
    else if type == attribute_number a_free_async_rpc_name
    then some (nul_string (buff_size - 1))
    else if type == attribute_number a_free_async_code
    then some s32
    else none

-- rkx_genl_ops, by `.cmd`
abbrev pub op_of : ℕ → Option Command
op_of cmd =
    if cmd == cmd_number c_add_monitor_net
    then some add_monitor_net
    else if cmd == cmd_number c_del_monitor_net
    then some del_monitor
    else if cmd == cmd_number c_add_free_async
    then some add_rule
    else if cmd == cmd_number c_del_free_async
    then some del_rule
    else none

-- The payloads of info->attrs, by the type of the attribute
abbrev pub Payloads : Type 0
Payloads = ℕ → Option (List ℕ)

-- nla_get_u32, nla_data, nla_get_s32 and nla_get_u8 in the handlers
abbrev pub attrs_of : Payloads → Attrs
attrs_of payloads = record {
  uid = payloads (attribute_number a_uid) >>= λ p. le32 p 0;
  rpc_name = payloads (attribute_number a_free_async_rpc_name) >>= λ p. some (c_string p);
  code = payloads (attribute_number a_free_async_code) >>= λ p. s32_at p 0;
  strategy = payloads (attribute_number a_free_async_strategy) >>= λ p. get_elem? p 0;
}
