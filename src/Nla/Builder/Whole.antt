-- ===== src/Nla/Builder/Whole.antt =====
-- NlaBuilder from its start to `finish`.
use re_kernel_x.Base.{
  ℕ, ◌+◌, ◌%◌, ◌^◌, ◌≤◌, ◌<◌, ◌≡◌, refl, sym, ap, ◌∙◌, true, List, [], ◌∷◌, ◌++◌, some, arith, leb,
  take, drop, length, replicate, length-append, length-drop,
}
use mathlib.Core.List.{append_assoc}
use re_kernel_x.Nla.{read_bytes}
use re_kernel_x.Nla.Wire.{bytes16, bytes32, genl_message}
use re_kernel_x.Nla.Builder.{Builder, new, headers, put_genl_header, finish}
use re_kernel_x.Nla.Builder.Bytes.{store-append, take-append}
use re_kernel_x.Nla.Builder.Puts.{Built}

-- A new builder with its headers, in a buffer with room for these.
pub begin_lem :
    (stack : List ℕ) (cap family seq cmd version : ℕ)
    → length stack ≡ cap
    → 20 ≤ cap
    → (b0 b : Builder) × (new stack cap ≡ some b0)
      × (put_genl_header b0 family seq cmd version ≡ some b)
      × Built b (headers 0 family seq cmd version)
      × (b.cap ≡ cap)
unfolding new put_genl_header
begin_lem stack cap family seq cmd version sized fits =
    let zeros = replicate {A = ℕ} 20 0 in
    let hdr = headers 0 family seq cmd version in
    let rest = drop 20 stack in
    let s1 = store-append 0 [] zeros stack refl (omega arith) in
    let s2 = store-append 0 [] hdr (zeros ++ rest) refl (omega (arith, length-append zeros rest)) in
    (
      record { buf = zeros ++ rest; cap = cap; len = 20 },
      record { buf = hdr ++ rest; cap = cap; len = 20 },
      rw s1 refl,
      rw s2 refl,
      record {
        rest = rest;
        split = refl;
        ends = refl;
        sized = omega (arith, length-append hdr rest, length-drop 20 stack);
      },
      refl,
    )

-- What `finish` leaves at the start of the buffer is the message in the format.
pub finish_lem :
    (b : Builder) (family seq cmd version : ℕ) (attrs : List ℕ)
    → Built b (headers 0 family seq cmd version ++ attrs)
    → b.cap < 2 ^ 32
    → (b' : Builder) × (finish b ≡ some (length attrs + 20, b'))
      × (read_bytes b'.buf 0 (length attrs + 20)
          ≡ some (genl_message family 1 seq 0 cmd version attrs))
unfolding finish
finish_lem b family seq cmd version attrs built small =
    let hdr = headers 0 family seq cmd version in
    let tail : List ℕ =
      bytes16 family
      ++ (bytes16 1
          ++ (bytes32 seq ++ (bytes32 0 ++ cmd ∷ version ∷ 0 ∷ 0 ∷ (attrs ++ built.rest)))) in
    let size : b.len ≡ length attrs + 20 = omega (arith, built.ends, length-append hdr attrs) in
    let word : (length attrs + 20) % 2 ^ 32 ≡ length attrs + 20 = omega (
      arith,
      size,
      small,
      built.ends,
      built.sized,
      ap length built.split,
      length-append (hdr ++ attrs) built.rest,
    ) in
    let s =
      store-append 0 [] (bytes32 (length attrs + 20)) (bytes32 0 ++ tail) refl (omega arith) in
    let whole = genl_message family 1 seq 0 cmd version attrs in
    let split : b.buf ≡ bytes32 0 ++ tail = built.split ∙ append_assoc hdr attrs built.rest in
    let all : length whole ≡ length attrs + 20 = omega arith in
    let inside : leb (0 + (length attrs + 20)) (length (whole ++ built.rest)) ≡ true =
      ground (arith, length-append attrs built.rest) in
    (
      record b { buf = whole ++ built.rest },
      rw (size, word, split, s) refl,
      rw inside (
          ap some
            (ap (λ k. take k (whole ++ built.rest)) (sym all) ∙ take-append whole built.rest)),
    )
