-- ===== src/Nla.antt =====
-- Develop/rekernel_x/src/main/cpp/rkx_nla.h, the reading side: netlink attributes in a buffer. The
-- buffer is its bytes, a pointer into it is an offset, and every read is checked: `none` is a read
-- outside of the buffer (or, of a loop, out of fuel). Words are little-endian, as on Android.
pub mod Bounds
pub mod Wire
pub mod Parses
pub mod Builder
use re_kernel_x.Base.{
  ℕ, zero, suc, ◌+◌, ◌-◌, ◌*◌, ◌/◌, ◌%◌, ◌^◌, Bool, true, false, ◌&&◌, List, Option, none, some,
  ◌>>=◌, if◌then◌else◌, ◌==◌, ltb, leb, get_elem?, take, drop, length, ℤ, signed32,
}

-- *(uint16_t *) and *(uint32_t *) at an offset
abbrev pub le16 : List ℕ → ℕ → Option ℕ
le16 buf i = do lo ← get_elem? buf i; hi ← get_elem? buf (i + 1); some (lo + 256 * hi)

abbrev pub le32 : List ℕ → ℕ → Option ℕ
le32 buf i = do lo ← le16 buf i; hi ← le16 buf (i + 2); some (lo + 65536 * hi)

-- memcpy out of the buffer
abbrev pub read_bytes : List ℕ → ℕ → ℕ → Option (List ℕ)
read_bytes buf i n = if leb (i + n) (length buf) then some (take n (drop i buf)) else none

-- NLA_ALIGN
abbrev pub nla_align : ℕ → ℕ
nla_align n = (n + 3) / 4 * 4

-- nla_type, nla_data and nla_len; the last is a uint16_t
abbrev pub nla_type : List ℕ → ℕ → Option ℕ
nla_type buf nla = le16 buf (nla + 2) >>= λ t. some (t % 2 ^ 14)

abbrev pub nla_data : ℕ → ℕ
nla_data nla = nla + 4

abbrev pub nla_len : List ℕ → ℕ → Option ℕ
nla_len buf nla = le16 buf nla >>= λ n. some ((n + 2 ^ 16 - 4) % 2 ^ 16)

abbrev pub nla_ok : List ℕ → ℕ → ℕ → Option Bool
nla_ok buf nla remaining =
    if ltb remaining 4
    then some false
    else (le16 buf nla >>= λ n. some (leb 4 n && leb n remaining))

-- tb[], an array of pointers
abbrev pub Table : Type 0
Table = ℕ → Option ℕ

abbrev pub no_attrs : Table
no_attrs k = none

abbrev pub assign : Table → ℕ → ℕ → Table
assign tb type nla k = if k == type then some nla else tb k

-- The body of the loop of rkx_nla_parse
abbrev pub note : ℕ → Table → ℕ → ℕ → Table
note maxtype tb type nla = if ltb 0 type && leb type maxtype then assign tb type nla else tb

-- nla_for_each_attr in rkx_nla_parse, with fuel. nla_next takes the aligned length off an int; where
-- that is negative, nla_ok refuses and the loop ends.
unfoldable pub parse_loop : ℕ → List ℕ → ℕ → ℕ → ℕ → Table → Option Table
parse_loop zero buf maxtype pos rem tb = none
parse_loop (suc fuel) buf maxtype pos rem tb = nla_ok buf pos rem >>= λ ok. elim ok [
  | false ↦ some tb
  | true ↦ nla_type buf pos >>= λ type. le16 buf pos >>= λ n.
      let totlen = nla_align n in
      let tb' = note maxtype tb type pos in
      let rest = parse_loop fuel buf maxtype (pos + totlen) (rem - totlen) tb' in
      if ltb rem totlen then some tb' else rest
]

-- rkx_nla_parse. A round takes at least four bytes, so len + 1 rounds are enough.
unfoldable pub parse : List ℕ → ℕ → ℕ → ℕ → Option Table
unfolding parse_loop
parse buf maxtype head len = parse_loop (suc len) buf maxtype head len no_attrs

-- rkx_nla_parse_nested
unfoldable pub parse_nested : List ℕ → ℕ → ℕ → Option Table
unfolding parse
parse_nested buf maxtype nla = nla_len buf nla >>= λ len. parse buf maxtype (nla_data nla) len

-- `if (nla) rkx_nla_get(nla, out)` at int32_t, uint32_t and uint16_t; `out` stays as it was where
-- there is no attribute or its payload is too short.
abbrev pub get_with : {A : Type 0} → ℕ → (List ℕ → ℕ → Option A) → List ℕ → Option ℕ → A → Option A
get_with size read buf none out = some out
get_with size read buf (some nla) out =
    nla_len buf nla >>= λ len. if ltb len size then some out else read buf (nla_data nla)

abbrev pub s32_at : List ℕ → ℕ → Option ℤ
s32_at buf i = le32 buf i >>= λ w. some (signed32 w)

abbrev pub get_s32 : List ℕ → Option ℕ → ℤ → Option ℤ
get_s32 = get_with 4 s32_at

abbrev pub get_u32 : List ℕ → Option ℕ → ℕ → Option ℕ
get_u32 = get_with 4 le32

abbrev pub get_u16 : List ℕ → Option ℕ → ℕ → Option ℕ
get_u16 = get_with 2 le16
