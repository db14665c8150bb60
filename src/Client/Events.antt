-- ===== src/Client/Events.antt =====
-- rkx_jni.cpp, the dispatch of events: handle_event and the handlers of the three kinds. A message is
-- at an offset of the receive buffer; `none` is a read outside of the buffer.
use re_kernel_x.Base.{
  ℕ, ◌+◌, ◌-◌, ◌^◌, min, ◌||◌, not, List, [], ◌∷◌, ◌++◌, Option, none, some, ◌>>=◌, if◌then◌else◌,
  ◌==◌, ltb, get_elem?, ℤ, minus_one, CString,
}
use re_kernel_x.Abi.Library.{a_max, attribute_number}
use re_kernel_x.Abi.{
  a_binder, a_binder_code, a_binder_from_pid, a_binder_from_uid, a_binder_oneway, a_binder_rpc_name,
  a_binder_target_pid, a_binder_target_uid, a_binder_type, a_event, a_network, a_network_data_len,
  a_network_proto, a_network_target_uid, a_signal, a_signal_dst_pid, a_signal_dst_uid,
  a_signal_killer_pid, a_signal_killer_uid, a_signal_signal,
}
use re_kernel_x.Nla.{le16, le32, read_bytes, nla_len, nla_data, parse, parse_nested, get_s32}

-- CallVoidMethod on the callback: `binder`, `signal` and `network` of ReKernelXCallback.
pub data Call : Type 0 where
  binder :
      (binder_type oneway from_uid from_pid target_uid target_pid : ℤ) (rpc_name : CString)
      (code : ℤ)
      → Call
  signal : (sig killer_uid killer_pid dst_uid dst_pid : ℤ) → Call
  network : (proto target_uid data_len : ℤ) → Call

-- RKX_A_MAX and RKX_RPC_NAME_LEN
abbrev pub attr_max : ℕ
attr_max = a_max

abbrev pub rpc_name_len : ℕ
rpc_name_len = 140

-- The string in a zeroed array that `bytes` were copied to: what stands before the first zero.
abbrev pub c_string : List ℕ → CString
c_string [] = []
c_string (b ∷ bs) = if b == 0 then [] else b ∷ c_string bs

-- The copy of the name, of at most RKX_RPC_NAME_LEN bytes, into an array with one byte more.
unfoldable pub copy_name : List ℕ → Option ℕ → Option CString
copy_name buf none = some []
copy_name buf (some nla) = nla_len buf nla >>= λ len.
    read_bytes buf (nla_data nla) (min len rpc_name_len) >>= λ bytes. some (c_string bytes)

unfoldable pub handle_binder_event : List ℕ → ℕ → Option Call
unfolding parse_nested copy_name
handle_binder_event buf payload = do
  tb ← parse_nested buf attr_max payload
  binder_type ← get_s32 buf (tb (attribute_number a_binder_type)) minus_one
  oneway ← get_s32 buf (tb (attribute_number a_binder_oneway)) minus_one
  from_pid ← get_s32 buf (tb (attribute_number a_binder_from_pid)) minus_one
  from_uid ← get_s32 buf (tb (attribute_number a_binder_from_uid)) minus_one
  target_pid ← get_s32 buf (tb (attribute_number a_binder_target_pid)) minus_one
  target_uid ← get_s32 buf (tb (attribute_number a_binder_target_uid)) minus_one
  code ← get_s32 buf (tb (attribute_number a_binder_code)) minus_one
  rpc_name ← copy_name buf (tb (attribute_number a_binder_rpc_name))
  some (binder binder_type oneway from_uid from_pid target_uid target_pid rpc_name code)

unfoldable pub handle_signal_event : List ℕ → ℕ → Option Call
unfolding parse_nested
handle_signal_event buf payload = do
  tb ← parse_nested buf attr_max payload
  sig ← get_s32 buf (tb (attribute_number a_signal_signal)) minus_one
  killer_uid ← get_s32 buf (tb (attribute_number a_signal_killer_uid)) minus_one
  killer_pid ← get_s32 buf (tb (attribute_number a_signal_killer_pid)) minus_one
  dst_uid ← get_s32 buf (tb (attribute_number a_signal_dst_uid)) minus_one
  dst_pid ← get_s32 buf (tb (attribute_number a_signal_dst_pid)) minus_one
  some (signal sig killer_uid killer_pid dst_uid dst_pid)

unfoldable pub handle_network_event : List ℕ → ℕ → Option Call
unfolding parse_nested
handle_network_event buf payload = do
  tb ← parse_nested buf attr_max payload
  proto ← get_s32 buf (tb (attribute_number a_network_proto)) minus_one
  target_uid ← get_s32 buf (tb (attribute_number a_network_target_uid)) minus_one
  data_len ← get_s32 buf (tb (attribute_number a_network_data_len)) minus_one
  some (network proto target_uid data_len)

-- `if (evt_tb[type]) handler(evt_tb[type])`: the calls that it makes.
abbrev pub when_there : Option ℕ → (ℕ → Option Call) → Option (List Call)
when_there none handler = some []
when_there (some nla) handler = handler nla >>= λ call. some (call ∷ [])

-- The calls for the nest of an event, which holds those of the kinds.
unfoldable pub handle_evt : List ℕ → Option ℕ → Option (List Call)
unfolding parse_nested handle_binder_event handle_signal_event handle_network_event
handle_evt buf none = some []
handle_evt buf (some evt) = parse_nested buf attr_max evt >>= λ evt_tb.
    when_there (evt_tb (attribute_number a_binder)) (handle_binder_event buf) >>= λ b.
    when_there (evt_tb (attribute_number a_signal)) (handle_signal_event buf) >>= λ s.
    when_there (evt_tb (attribute_number a_network)) (handle_network_event buf) >>= λ n.
    some (b ++ (s ++ n))

-- Behind the checks of the headers, with the attributes at `head`.
unfoldable pub handle_attrs : List ℕ → ℕ → ℕ → Option (List Call)
unfolding parse handle_evt
handle_attrs buf head len =
    parse buf attr_max head len >>= λ tb. handle_evt buf (tb (attribute_number a_event))

-- NLMSG_ERROR, NLMSG_DONE, and NLMSG_HDRLEN + GENL_HDRLEN
abbrev pub nlmsg_error : ℕ
nlmsg_error = 2

abbrev pub nlmsg_done : ℕ
nlmsg_done = 3

abbrev pub headers_len : ℕ
headers_len = 20

-- static_cast<int>(nlh->nlmsg_len) - attr_off; where the int is negative, so that the parser takes
-- nothing, it is 0 here.
abbrev pub attrs_len : ℕ → ℕ
attrs_len nlmsg_len = if ltb nlmsg_len (2 ^ 31) then nlmsg_len - headers_len else 0

-- handle_event, of the message at `nlh`; `family` is g_family_id.
unfoldable pub handle_event : ℕ → List ℕ → ℕ → Option (List Call)
unfolding handle_attrs
handle_event family buf nlh = le16 buf (nlh + 4) >>= λ type.
    if type == nlmsg_error || type == nlmsg_done || not (type == family)
    then some []
    else (le32 buf nlh >>= λ nlmsg_len.
        if ltb nlmsg_len headers_len
        then some []
        else (get_elem? buf (nlh + 16) >>= λ cmd.
            if not (cmd == 1)
            then some []
            else handle_attrs buf (nlh + headers_len) (attrs_len nlmsg_len)))
