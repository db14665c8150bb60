-- ===== src/BinderAlloc/Client.antt =====
-- The copy that rkx_register_binder_kp chooses on kernels before 6.0, as the probe of
-- LKM-Source/rkx_binder_kp.c calls it.
use re_kernel_x.Base.{
  list_ext, get_elem?-take, get_elem?-drop, ℕ, ◌+◌, ◌-◌, ◌≤◌, ◌<◌, ◌≡◌, sym, ap, ◌∙◌, ◌⊎◌, inl, inr,
  false, List, Option, none, some, arith, length, take, drop, get_elem?, length-take, length-drop,
  ℤ, pos, eq_ℤ, if◌then◌else◌, ◌>>=◌,
}
use re_kernel_x.BinderKp.{Buffer, Copier}
use re_kernel_x.BinderKp.Equal.{CopiesBytes}
use re_kernel_x.BinderAlloc.{Alloc, AllocBuffer, copy_from_buffer}
use re_kernel_x.BinderAlloc.Pages.{Reads, byte_at}
use re_kernel_x.BinderAlloc.Copy.{IsLaidOut, end_of, copy_outcome}

-- The bytes of a call that returned 0.
abbrev pub on_success : ℤ × List ℕ → Option (List ℕ)
on_success (rc, out) = if eq_ℤ rc (pos 0) then some out else none

-- `place` follows the pointer to a buffer.
unfoldable pub copier : Alloc → (Buffer → ℕ × AllocBuffer) → Copier
copier a place kb offset n = let (i, b) = place kb in copy_from_buffer a i b offset n >>= on_success

module _ (a : Alloc) (place : Buffer → ℕ × AllocBuffer) (kb : Buffer) where
  abbrev pub index : ℕ
  index = (place kb).0

  abbrev pub buffer : AllocBuffer
  buffer = (place kb).1

  -- A buffer in use that lies in the allocator as binder lays it out, and whose bytes are
  -- `contents`.
  pub record InUse : Type 0 where
    pub laid : IsLaidOut a index buffer
    pub taken : buffer.free ≡ false
    pub quiet : (buffer.allow_user_free ≡ false) ⊎ (buffer.has_transaction ≡ false)
    pub room : buffer.user_data + kb.data_size ≤ end_of a index
    pub holds : Reads a (buffer.user_data - a.base) kb.data_size kb.contents

  -- On kernels before 6.0 the copy that the probe uses keeps the promise that the comparison of
  -- buffers and the reading of interface names rest on, for each buffer that is in use: at an
  -- aligned offset it copies any bytes that lie within the buffer.
  pub copier-CopiesBytes : InUse → CopiesBytes (copier a place) kb
  unfolding copier
  copier-CopiesBytes u offset n aligned fits = elim (copy_outcome a index buffer u.laid offset n) [
    | inl (bad, _) ↦ absurd (
        bad (record {
          within = omega (arith, u.room);
          aligned = aligned;
          taken = u.taken;
          quiet = u.quiet;
        }))
    | inr (_, (out, e, (len, reads))) ↦ rw e (ap some (same out len reads))
  ]
    where
      start : ℕ
      start = buffer.user_data - a.base

      same :
          (out : List ℕ)
          → length out ≡ n
          → ((k : ℕ) → k < n → get_elem? out k ≡ byte_at a (start + offset + k))
          → out ≡ take n (drop offset kb.contents)
      same out len reads =
          let (whole, bytes) = u.holds in
          list_ext out (take n (drop offset kb.contents))
            (omega (arith, length-take n (drop offset kb.contents), length-drop offset kb.contents))
            (λ k lt.
              let less : k < n = omega arith in
              let there : start + (offset + k) ≡ start + offset + k = omega arith in
              reads k less
              ∙ ap (byte_at a) (sym there)
              ∙ sym (bytes (offset + k) (omega arith))
              ∙ sym (get_elem?-drop offset k kb.contents)
              ∙ sym (get_elem?-take n k (drop offset kb.contents) less))
