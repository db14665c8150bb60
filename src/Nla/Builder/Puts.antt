-- ===== src/Nla/Builder/Puts.antt =====
-- NlaBuilder appends attributes in the netlink format, as long as their lengths fit into 16 bits.
use re_kernel_x.Base.{
  ℕ, ◌+◌, ◌-◌, ◌%◌, ◌^◌, ◌≤◌, ◌<◌, ◌≡◌, refl, sym, ap, ◌∙◌, ◌⊎◌, inl, inr, true, false, not, List,
  ◌++◌, some, arith, ◌==◌, ltb, leb, drop, length, replicate, length-append, length-drop,
  length-replicate, take_all, Bool-cases,
}
use mathlib.Core.List.{append_assoc}
use re_kernel_x.Nla.{read_bytes, nla_align}
use re_kernel_x.Nla.Wire.{bytes16, attr, wire_of, length-wire_of}
use re_kernel_x.Nla.Builder.{Builder, put}
use re_kernel_x.Nla.Builder.Bytes.{store-append, store_if}

-- The builder holds `whole` at the start of a buffer of as many bytes as it takes it to have.
pub record Built (b : Builder) (whole : List ℕ) : Type 0 where
  pub rest : List ℕ
  pub split : b.buf ≡ whole ++ rest
  pub ends : length whole ≡ b.len
  pub sized : length b.buf ≡ b.cap

pub read_all :
    (data_bytes : List ℕ) (n : ℕ)
    → length data_bytes ≡ n
    → read_bytes data_bytes 0 n ≡ some data_bytes
read_all data_bytes n e =
    let inside : leb (0 + n) (length data_bytes) ≡ true = ground arith in
    rw inside (ap some (take_all n data_bytes (omega arith)))

module _ (b : Builder) (whole : List ℕ) (type : ℕ) (data_bytes : List ℕ) (n : ℕ)
    (built : Built b whole) (e : length data_bytes ≡ n) (short : n + 7 < 2 ^ 16) where
  abbrev size : ℕ
  size = nla_align (n + 4)

  abbrev hdr : List ℕ
  hdr = bytes16 (n + 4) ++ bytes16 type

  abbrev pad : List ℕ
  pad = replicate (size - (n + 4)) 0

  -- The buffer up to the end of the attribute, and behind it.
  abbrev done : List ℕ
  done = ((whole ++ hdr) ++ data_bytes) ++ pad

  abbrev behind : List ℕ
  behind = drop (length pad) (drop (length data_bytes) (drop 4 built.rest))

  abbrev longer : Builder
  longer = record b { buf = done ++ behind; len = b.len + size }

  pads : length pad ≡ size - (n + 4)
  pads = length-replicate {A = ℕ} (size - (n + 4)) 0

  left : b.len + size ≤ b.cap → size ≤ length built.rest
  left room =
      omega (
        arith,
        room,
        built.ends,
        built.sized,
        ap length built.split,
        length-append whole built.rest,
      )

  put-longer : b.len + size ≤ b.cap → put b type data_bytes n ≡ some (true, longer)
  unfolding put
  put-longer room =
      let al : (4 + n) % 2 ^ 16 ≡ n + 4 = omega arith in
      let ag : nla_align (n + 4) % 2 ^ 16 ≡ nla_align (n + 4) = omega arith in
      let fits : ltb b.cap (b.len + nla_align (n + 4)) ≡ false = ground arith in
      let free = left room in
      let s1 = store-append b.len whole hdr built.rest built.ends (omega arith) in
      let s2 =
        store_if (not (n == 0)) (b.len + 4) (whole ++ hdr) data_bytes (drop 4 built.rest)
          (omega (arith, length-append whole hdr, built.ends))
          (omega (arith, length-drop 4 built.rest)) (λ c. ground arith) in
      let s3 =
        store_if (ltb (n + 4) size) (b.len + (n + 4)) ((whole ++ hdr) ++ data_bytes) pad
          (drop (length data_bytes) (drop 4 built.rest))
          (omega
            (arith, length-append whole hdr, length-append (whole ++ hdr) data_bytes, built.ends))
          (omega (
            arith,
            length-drop 4 built.rest,
            length-drop (length data_bytes) (drop 4 built.rest),
            pads,
          ))
          (λ c. ground (arith, pads)) in
      rw (al, ag, fits, built.split, s1, read_all data_bytes n e, s2, s3) refl

  -- `done`, as the format has it.
  done-wire_of : done ≡ whole ++ wire_of (attr type data_bytes)
  done-wire_of =
      append_assoc (whole ++ hdr) data_bytes pad
      ∙ append_assoc whole hdr (data_bytes ++ pad)
      ∙ ap (λ k. whole ++ wire_at k) (sym e)
    where
      -- The attribute, with its length written apart.
      wire_at : ℕ → List ℕ
      wire_at k =
          (bytes16 (k + 4) ++ bytes16 type)
          ++ (data_bytes ++ replicate (nla_align (k + 4) - (k + 4)) 0)

  longer-Built : b.len + size ≤ b.cap → Built longer (whole ++ wire_of (attr type data_bytes))
  longer-Built room = record {
    rest = behind;
    split = ap (λ l. l ++ behind) done-wire_of;
    ends = omega (
      arith,
      length-append whole (wire_of (attr type data_bytes)),
      length-wire_of (attr type data_bytes),
      built.ends,
      e,
    );
    sized = omega (
      arith,
      length-append done behind,
      length-drop (length pad) (drop (length data_bytes) (drop 4 built.rest)),
      length-drop (length data_bytes) (drop 4 built.rest),
      length-drop 4 built.rest,
      length-append ((whole ++ hdr) ++ data_bytes) pad,
      length-append (whole ++ hdr) data_bytes,
      length-append whole hdr,
      left room,
      pads,
      ap length built.split,
      length-append whole built.rest,
      built.ends,
      built.sized,
    );
  }

  -- A put of data of which the length, with the header, fits into 16 bits, appends the attribute in
  -- the format if the buffer has room for it, and changes nothing otherwise. Either way it writes
  -- nothing outside of the buffer.
  pub put_outcome :
      ((b.cap < b.len + nla_align (n + 4)) × (put b type data_bytes n ≡ some (false, b)))
      ⊎ ((b.len + nla_align (n + 4) ≤ b.cap)
          × (b' : Builder) × (put b type data_bytes n ≡ some (true, b'))
          × Built b' (whole ++ wire_of (attr type data_bytes))
          × (b'.cap ≡ b.cap))
  unfolding put
  put_outcome =
      let al : (4 + n) % 2 ^ 16 ≡ n + 4 = omega arith in
      let ag : nla_align (n + 4) % 2 ^ 16 ≡ nla_align (n + 4) = omega arith in
      elim (Bool-cases (ltb b.cap (b.len + nla_align (n + 4)))) [
        | inl full ↦ inl (ground arith, rw (al, ag, full) refl)
        | inr free ↦
            let room : b.len + size ≤ b.cap = ground arith in
            inr (room, longer, put-longer room, longer-Built room, refl)
      ]
