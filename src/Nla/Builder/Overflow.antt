-- ===== src/Nla/Builder/Overflow.antt =====
-- Where the lengths of NlaBuilder::put do not fit into their 16 bits.
use re_kernel_x.Base.{
  ℕ, ◌+◌, ◌%◌, ◌^◌, ◌≤◌, ◌<◌, ◌≡◌, refl, ap, true, false, not, List, ◌++◌, none, arith, ◌==◌, ltb,
  leb, drop, length, length-append, length-drop,
}
use re_kernel_x.Nla.{nla_align}
use re_kernel_x.Nla.Wire.{bytes16}
use re_kernel_x.Nla.Builder.{Builder, put}
use re_kernel_x.Nla.Builder.Bytes.{store-append}
use re_kernel_x.Nla.Builder.Puts.{Built, read_all}

-- The aligned length of data of 65529 bytes or more wraps to at most four, so that it passes the test
-- against the room, and the data is written past the end of a smaller buffer.
pub put_overflow :
    (b : Builder) (whole : List ℕ) (type : ℕ) (data_bytes : List ℕ) (n : ℕ)
    → Built b whole
    → length data_bytes ≡ n
    → 65529 ≤ n
    → n < 2 ^ 16
    → b.len + 4 ≤ b.cap
    → b.cap < 65529
    → put b type data_bytes n ≡ none
unfolding put
put_overflow b whole type data_bytes n built e long word room small =
    let al = (4 + n) % 2 ^ 16 in
    let hdr = bytes16 al ++ bytes16 type in
    let rest = built.rest in
    let wrapped : nla_align al % 2 ^ 16 ≤ 4 = omega arith in
    let passes : ltb b.cap (b.len + nla_align al % 2 ^ 16) ≡ false = ground arith in
    let left : b.len + length rest ≡ b.cap =
      omega (arith, built.ends, built.sized, ap length built.split, length-append whole rest) in
    let s1 = store-append b.len whole hdr rest built.ends (omega arith) in
    let some_data : not (n == 0) ≡ true = ground arith in
    let size : length ((whole ++ hdr) ++ drop 4 rest) ≡ b.cap = omega (
      arith,
      length-append (whole ++ hdr) (drop 4 rest),
      length-append whole hdr,
      length-drop 4 rest,
      built.ends,
    ) in
    let outside : leb (b.len + 4 + length data_bytes) (length ((whole ++ hdr) ++ drop 4 rest))
        ≡ false =
      ground (arith, size) in
    rw (passes, built.split, s1, read_all data_bytes n e, some_data, outside) refl
