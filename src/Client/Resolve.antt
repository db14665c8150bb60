-- ===== src/Client/Resolve.antt =====
-- rkx_jni.cpp, resolve_family_group: the request to the generic netlink controller, and the reading of
-- its reply. CTRL_ATTR_MAX comes with the kernel's headers and is a parameter.
pub mod Asks
pub mod Groups
pub mod Reply
use re_kernel_x.Base.{
  ltb_ℤ, minus_one, ℕ, zero, suc, ◌+◌, ◌-◌, ◌*◌, ◌/◌, ◌%◌, ◌^◌, min, Bool, true, false, ◌||◌, List,
  [], ◌∷◌, ◌++◌, Option, none, some, ◌>>=◌, if◌then◌else◌, ◌==◌, ltb, get_elem?, length, replicate,
  ℤ, pos, negsuc, eq_ℤ, CString, codes,
}
use re_kernel_x.Abi.Library.{genl_family_name, genl_mcgrp_name}
use re_kernel_x.Nla.{
  le16, le32, read_bytes, nla_align, nla_data, nla_len, nla_ok, Table, parse, get_u16, get_u32,
}
use re_kernel_x.Nla.Wire.{bytes16, bytes32}
use re_kernel_x.Nla.Builder.{store}

-- RKX_GENL_FAMILY_NAME and RKX_GENL_MCGRP_NAME
abbrev pub family_name : CString
family_name = genl_family_name

abbrev pub group_name : CString
group_name = genl_mcgrp_name

-- GENL_ID_CTRL, CTRL_CMD_GETFAMILY, CTRL_ATTR_FAMILY_ID, CTRL_ATTR_FAMILY_NAME, CTRL_ATTR_MCAST_GROUPS,
-- CTRL_ATTR_MCAST_GRP_NAME, CTRL_ATTR_MCAST_GRP_ID and CTRL_ATTR_MCAST_GRP_MAX
abbrev pub id_ctrl : ℕ
id_ctrl = 16

abbrev pub cmd_get_family : ℕ
cmd_get_family = 3

abbrev pub attr_family_id : ℕ
attr_family_id = 1

abbrev pub attr_family_name : ℕ
attr_family_name = 2

abbrev pub attr_mcast_groups : ℕ
attr_mcast_groups = 7

abbrev pub grp_name : ℕ
grp_name = 1

abbrev pub grp_id : ℕ
grp_id = 2

abbrev pub grp_max : ℕ
grp_max = 2

-- The request with the number `seq`, put together by hand in 256 zeroed bytes; `none` is a write outside
-- of them.
unfoldable pub request : ℕ → Option (List ℕ)
request seq =
    let name_len = (length family_name + 1) % 2 ^ 16 in
    let attr_len = (4 + name_len) % 2 ^ 16 in
    let total = (20 + nla_align attr_len) % 2 ^ 16 in
    store (replicate 256 0) 0 (bytes32 total ++ (bytes16 id_ctrl ++ (bytes16 1 ++ bytes32 seq)))
    >>= λ b1. store b1 16 (cmd_get_family ∷ 1 ∷ []) >>= λ b2.
        store b2 20 (bytes16 attr_len ++ bytes16 attr_family_name) >>= λ b3.
        store b3 24 (family_name ++ 0 ∷ []) >>= λ b4. read_bytes b4 0 total

-- strcmp with `name` at an offset, up to the first difference
unfoldable pub str_matches : List ℕ → ℕ → CString → Option Bool
str_matches buf i [] = get_elem? buf i >>= λ b. some (b == 0)
str_matches buf i (c ∷ cs) = get_elem? buf i >>= λ b.
    let rest = str_matches buf (i + 1) cs in if b == c then rest else some false

-- Whether a group, by the table of its attributes, is the one that the client looks for.
abbrev pub is_group : List ℕ → Option ℕ → Option ℕ → Option Bool
is_group buf none id = some false
is_group buf (some name) none = some false
is_group buf (some name) (some id) = str_matches buf (nla_data name) group_name

-- nla_for_each_nested over the groups: the id of the first that is looked for, 0 if there is none
unfoldable pub group_loop : ℕ → List ℕ → ℕ → ℕ → Option ℕ
unfolding parse str_matches
group_loop zero buf mcgrp rem = none
group_loop (suc fuel) buf mcgrp rem = nla_ok buf mcgrp rem >>= λ ok. elim ok [
  | false ↦ some 0
  | true ↦ le16 buf mcgrp >>= λ n. nla_len buf mcgrp >>= λ len.
      parse buf grp_max (nla_data mcgrp) len >>= λ tb.
      is_group buf (tb grp_name) (tb grp_id) >>= λ found.
      let rest = group_loop fuel buf (mcgrp + nla_align n) (rem - nla_align n) in
      if found then get_u32 buf (tb grp_id) 0 else if ltb rem (nla_align n) then some 0 else rest
]

-- `if (tb[CTRL_ATTR_MCAST_GROUPS])`; a round takes at least four bytes.
unfoldable pub find_group : List ℕ → Option ℕ → Option ℕ
unfolding group_loop
find_group buf none = some 0
find_group buf (some groups) =
    nla_len buf groups >>= λ len. group_loop (suc len) buf (nla_data groups) len

-- min(static_cast<int>(nlmsg_len), rlen) - payload_off; where that is negative, so that the parser takes
-- nothing, it is 0 here.
abbrev pub payload_len : ℕ → ℕ → ℕ
payload_len nlmsg_len rlen = if ltb nlmsg_len (2 ^ 31) then min nlmsg_len rlen - 20 else 0

-- Behind nl_recv, which gave `rlen` and left the reply in the buffer: the number of the family and of the
-- group. A failure is `some none`, `none` is a read outside of the buffer.
unfoldable pub read_reply : ℕ → List ℕ → ℤ → Option (Option (ℕ × ℕ))
unfolding parse find_group
read_reply attr_max buf (negsuc n) = some none
read_reply attr_max buf (pos rlen) =
    if ltb rlen 16
    then some none
    else (le16 buf 4 >>= λ type.
        if type == 2
        then some none
        else (le32 buf 0 >>= λ nlmsg_len.
            parse buf attr_max 20 (payload_len nlmsg_len rlen) >>= λ tb.
            get_u16 buf (tb attr_family_id) 0 >>= λ fid.
            find_group buf (tb attr_mcast_groups) >>= λ gid.
            some (if fid == 0 || gid == 0 then none else some (fid, gid))))

-- nl_sendto, by what sendto gives
abbrev pub nl_sendto : (List ℕ → ℤ) → List ℕ → ℤ
nl_sendto sendto buf = if eq_ℤ (sendto buf) (pos (length buf)) then pos 0 else minus_one

-- resolve_family_group, with the number `seq`, what sendto gives for the request, and what recvfrom
-- gives and leaves in the buffer of the reply.
unfoldable pub resolve_family_group : ℕ → ℕ → (List ℕ → ℤ) → ℤ → List ℕ → Option (Option (ℕ × ℕ))
unfolding request read_reply
resolve_family_group attr_max seq sendto rlen reply = request seq >>= λ message.
    if ltb_ℤ (nl_sendto sendto message) (pos 0) then some none else read_reply attr_max reply rlen
