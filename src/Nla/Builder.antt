-- ===== src/Nla/Builder.antt =====
-- Develop/rekernel_x/src/main/cpp/rkx_nla.h, NlaBuilder: a generic netlink message put together in a
-- buffer of the caller. Every write is checked: `none` is a write outside of the buffer, or a read
-- outside of what a caller hands over.
pub mod Bytes
pub mod Puts
pub mod Overflow
pub mod Whole
use re_kernel_x.Base.{
  ℕ, ◌+◌, ◌-◌, ◌*◌, ◌/◌, ◌%◌, ◌^◌, Bool, true, false, not, List, [], ◌∷◌, ◌++◌, Option, none, some,
  ◌>>=◌, if◌then◌else◌, ◌==◌, ltb, leb, take, drop, length, replicate, ℤ, unsigned32, CString,
}
use re_kernel_x.Nla.{read_bytes, nla_align}
use re_kernel_x.Nla.Wire.{bytes16, bytes32}

-- Bytes written at an offset.
abbrev pub store : List ℕ → ℕ → List ℕ → Option (List ℕ)
store buf i bytes =
    if leb (i + length bytes) (length buf)
    then some (take i buf ++ (bytes ++ drop (i + length bytes) buf))
    else none

-- buf_ with what is in it, cap_ and len_
pub record Builder : Type 0 where
  pub buf : List ℕ
  pub cap : ℕ
  pub len : ℕ

-- NlaBuilder(buf, cap); NLMSG_HDRLEN + GENL_HDRLEN is 20.
unfoldable pub new : List ℕ → ℕ → Option Builder
new buf cap =
    store buf 0 (replicate 20 0) >>= λ buf'. some (record { buf = buf'; cap = cap; len = 20 })

-- The two headers: nlmsg_len, which is 0 at first, nlmsg_type, nlmsg_flags (NLM_F_REQUEST), nlmsg_seq,
-- nlmsg_pid; cmd, version and reserved.
abbrev pub headers : ℕ → ℕ → ℕ → ℕ → ℕ → List ℕ
headers len family seq cmd version =
    bytes32 len
    ++ (bytes16 family ++ (bytes16 1 ++ (bytes32 seq ++ (bytes32 0 ++ cmd ∷ version ∷ 0 ∷ 0 ∷ []))))

-- putGenlHeader
unfoldable pub put_genl_header : Builder → ℕ → ℕ → ℕ → ℕ → Option Builder
put_genl_header b family seq cmd version =
    store b.buf 0 (headers 0 family seq cmd version) >>= λ buf. some (record b { buf = buf })

-- put, of `datalen` of the bytes that `data` points to. The lengths are uint16_t.
unfoldable pub put : Builder → ℕ → List ℕ → ℕ → Option (Bool × Builder)
put b type data_bytes datalen =
    let attr_len = (4 + datalen) % 2 ^ 16 in
    let aligned = nla_align attr_len % 2 ^ 16 in
    if ltb b.cap (b.len + aligned)
    then some (false, b)
    else (store b.buf b.len (bytes16 attr_len ++ bytes16 type) >>= λ named.
        read_bytes data_bytes 0 datalen >>= λ payload.
        (if not (datalen == 0) then store named (b.len + 4) payload else some named) >>= λ filled.
        (if ltb attr_len aligned
          then store filled (b.len + attr_len) (replicate (aligned - attr_len) 0)
          else some filled)
        >>= λ padded. some (true, record b { buf = padded; len = b.len + aligned }))

-- putU32, putS32, putU8 and putString; a C string is its bytes before the zero.
abbrev pub put_u32 : Builder → ℕ → ℕ → Option (Bool × Builder)
put_u32 b type v = put b type (bytes32 v) 4

abbrev pub put_s32 : Builder → ℕ → ℤ → Option (Bool × Builder)
put_s32 b type v = put b type (bytes32 (unsigned32 v)) 4

abbrev pub put_u8 : Builder → ℕ → ℕ → Option (Bool × Builder)
put_u8 b type v = put b type (v ∷ []) 1

abbrev pub put_string : Builder → ℕ → CString → Option (Bool × Builder)
put_string b type s = put b type (s ++ 0 ∷ []) ((length s + 1) % 2 ^ 16)

-- finish: the message, and its length.
unfoldable pub finish : Builder → Option (ℕ × Builder)
finish b = store b.buf 0 (bytes32 (b.len % 2 ^ 32)) >>= λ buf. some (b.len, record b { buf = buf })
