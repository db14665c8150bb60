-- ===== src/BinderKp/Token.antt =====
-- rkx_parse_interface_token reads the same name as the loop in the hook on transactions, and what
-- that means for the rules of rkx_free_async.c.
use re_kernel_x.Base.{
  ℕ, zero, suc, ◌+◌, ◌-◌, ◌≤◌, ◌≡◌, refl, inl, inr, List, some, arith, leb, length, take, drop,
  CString, Bool-cases, length-take, take_all,
}
use mathlib.Core.Path.{subst}
use re_kernel_x.Binder.{token_loop, token_name, token_size, parcel_offset}
use re_kernel_x.Binder.Token.{
  token_of, token_of-length, token_loop_lem, token_name_lem, drop_all, low_bytes,
}
use re_kernel_x.BinderKp.{Buffer, Copier, name_loop, copy_size, is_named, parse_interface_token}
use re_kernel_x.BinderKp.Equal.{CopiesBytes, IsFull}

name_loop-token_loop :
    (n : ℕ) (hdr : List ℕ) (size j p : ℕ) → name_loop n hdr size j p ≡ token_loop n hdr size j p
unfolding name_loop token_loop
name_loop-token_loop zero hdr size j p = refl
name_loop-token_loop (suc n) hdr size j p = rw (name_loop-token_loop n hdr size (j + 2) (p + 2))

-- The bytes that the probe copies of a full buffer.
abbrev pub head_of : Buffer → List ℕ
head_of b = take (copy_size b) b.contents

module _ (copy : Copier) (b : Buffer) (copies : CopiesBytes copy b) (full : IsFull b) where
  head-length : length (head_of b) ≡ copy_size b
  head-length = omega (arith, length-take (copy_size b) b.contents, small)
    where
      small : copy_size b ≤ b.data_size
      small = ground arith

  head-small : length (head_of b) ≤ token_size
  head-small = omega (arith, head-length, small)
    where
      small : copy_size b ≤ token_size
      small = ground arith

  loop :
      parcel_offset ≤ length (head_of b)
      → token_loop (token_size - 1) (head_of b) (copy_size b) (parcel_offset + 1) parcel_offset
        ≡ some (take (token_size - 1) (token_of (head_of b)))
  loop behind =
      subst
        (λ n.
          token_loop (token_size - 1) (head_of b) n (parcel_offset + 1) parcel_offset
          ≡ some (take (token_size - 1) (token_of (head_of b))))
        head-length
        (token_loop_lem (token_size - 1) (head_of b) parcel_offset (drop parcel_offset (head_of b))
          refl behind)

  pub parse_interface_token-token_of :
      parse_interface_token (some copy) b token_size ≡ some (is_named (token_of (head_of b)))
  unfolding parse_interface_token
  parse_interface_token-token_of = elim (Bool-cases (leb b.data_size parcel_offset)) [
    | inl short ↦
        rw (short, drop_all parcel_offset (head_of b) (ground (arith, head-length)))
          (unfold low_bytes in refl)
    | inr long ↦
        let size : ℕ = copy_size b in
        let within : 0 + size ≤ b.data_size = ground arith in
        let behind : parcel_offset ≤ length (head_of b) = ground (arith, head-length) in
        rw (
          long,
          copies 0 size refl within,
          name_loop-token_loop (token_size - 1) (head_of b) size (parcel_offset + 1) parcel_offset,
          loop behind,
          take_all (token_size - 1) (token_of (head_of b))
              (omega (arith, token_of-length (head_of b) head-small)),
        )
  ]

  -- Of a buffer that holds as many bytes as it says, and can be copied, the probe and the hook on
  -- transactions read the same name, of at most 62 bytes, from the same bytes, and neither reads
  -- outside of what was copied; rkx_parse_interface_token answers true exactly if the name is not
  -- empty.
  pub parsers_agree :
      (name : CString) × (token_name (head_of b) (length (head_of b)) ≡ some name)
      × (parse_interface_token (some copy) b token_size ≡ some (is_named name))
      × (length name ≤ 62)
  parsers_agree = (
    token_of (head_of b),
    token_name_lem (head_of b) head-small,
    parse_interface_token-token_of,
    token_of-length (head_of b) head-small,
  )
