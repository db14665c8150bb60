-- ===== src/BinderAlloc/Copy.antt =====
-- What rk_binder_alloc_copy_from_buffer copies: the bytes of the buffer, whatever pages they cross.
use re_kernel_x.Base.{
  ℕ, zero, suc, ◌+◌, ◌-◌, ◌/◌, ◌%◌, ◌^◌, ◌≤◌, ◌<◌, ◌≡◌, refl, sym, ap, ◌∙◌, ◌⊎◌, inl, inr, min,
  true, false, List, [], ◌++◌, none, some, arith, ◌==◌, get_elem?, Bool-cases, Option-cases, ◌↔◌,
  pos, einval,
}
use mathlib.Core.Path.{subst}
use re_kernel_x.BinderAlloc.{
  Alloc, AllocBuffer, page_size, sub64, buffer_next, buffer_size, check_buffer, get_page,
  memcpy_from_page, copy_loop, do_buffer_copy, copy_from_buffer,
}
use re_kernel_x.BinderAlloc.Pages.{Reads, Present, page-Reads, append-Reads}

module _ (a : Alloc) (b : AllocBuffer) (above : a.base ≤ b.user_data) where
  -- The offset, in the allocator's space, of an offset in the buffer.
  abbrev pub space_at : ℕ → ℕ
  space_at offset = b.user_data - a.base + offset

  get_page_lem :
      (offset : ℕ) (page : List ℕ)
      → b.user_data + offset < 2 ^ 64
      → get_elem? a.pages (space_at offset / page_size) ≡ some (some page)
      → get_page a b offset ≡ some (page, space_at offset % page_size)
  unfolding get_page
  get_page_lem offset page small found =
      let space : (offset + sub64 b.user_data a.base) % 2 ^ 64 ≡ space_at offset = omega arith in
      rw (space, found)

  copy_step :
      (fuel offset bytes pgoff : ℕ) (page out : List ℕ)
      → (bytes == 0) ≡ false
      → get_page a b offset ≡ some (page, pgoff)
      → let size = min bytes (page_size - pgoff) in
        copy_loop fuel a false b ((offset + size) % 2 ^ 64) (bytes - size) ≡ some (pos 0, out)
        → copy_loop (suc fuel) a false b offset bytes
          ≡ some (pos 0, memcpy_from_page page pgoff size ++ out)
  unfolding copy_loop
  copy_step fuel offset bytes pgoff page out more found rest = rw (more, found, rest)

  pub copy_loop_lem :
      (fuel offset bytes : ℕ)
      → bytes < fuel
      → b.user_data + offset + bytes < 2 ^ 64
      → Present a (space_at offset) bytes
      → (out : List ℕ) × (copy_loop fuel a false b offset bytes ≡ some (pos 0, out))
        × Reads a (space_at offset) bytes out
  unfolding copy_loop
  copy_loop_lem zero offset bytes h small there = absurd (omega arith)
  copy_loop_lem (suc fuel) offset bytes h small there = elim (Bool-cases (bytes == 0)) [
    | inl done ↦
        let e : bytes ≡ 0 = ground arith in ([], rw e refl, (sym e, λ k lt. absurd (omega arith)))
    | inr more ↦
        let positive : 0 < bytes = ground arith in
        let s : ℕ = space_at offset in
        let (page, found, whole) = there (s / page_size) (omega arith) (omega arith) in
        let size : ℕ = min bytes (page_size - s % page_size) in
        let next : (offset + size) % 2 ^ 64 ≡ offset + size = omega arith in
        let behind : Present a (space_at (offset + size)) (bytes - size) =
          λ i lo hi. there i (omega arith) (omega arith) in
        let (out, e, reads) =
          copy_loop_lem fuel (offset + size) (bytes - size) (omega arith) (omega arith) behind in
        let sum : size + (bytes - size) ≡ bytes = omega arith in
        let here : space_at (offset + size) ≡ s + size = omega arith in
        (
          memcpy_from_page page (s % page_size) size ++ out,
          copy_step fuel offset bytes (s % page_size) page out more
              (get_page_lem offset page (omega arith) found)
              (ap (λ o. copy_loop fuel a false b o (bytes - size)) next ∙ e),
          subst (λ n. Reads a s n (memcpy_from_page page (s % page_size) size ++ out)) sum
              (append-Reads a s size (bytes - size) (memcpy_from_page page (s % page_size) size) out
                (page-Reads a s size page found whole (omega arith))
                (subst (λ x. Reads a x (bytes - size) out) here reads)),
        )
  ]

-- Where the space of the buffer at a place ends: at the next buffer, or at the end of it all.
abbrev pub end_of : Alloc → ℕ → ℕ
end_of a i = elim (buffer_next a i) [ none ↦ a.base + a.size | some next ↦ next.user_data ]

-- The layout that binder keeps: the buffer lies within the space, before the next one, and its pages
-- are there while it is not free.
pub record IsLaidOut (a : Alloc) (i : ℕ) (b : AllocBuffer) : Type 0 where
  pub found : get_elem? a.buffers i ≡ some b
  pub above : a.base ≤ b.user_data
  pub ordered : b.user_data ≤ end_of a i
  pub bounded : end_of a i ≤ a.base + a.size
  pub small : a.base + a.size < 2 ^ 64
  pub there : Present a (b.user_data - a.base) (end_of a i - b.user_data)

-- The bytes that may be copied out of a buffer.
pub record Usable (a : Alloc) (i : ℕ) (b : AllocBuffer) (offset bytes : ℕ) : Type 0 where
  pub within : b.user_data + offset + bytes ≤ end_of a i
  pub aligned : offset % 4 ≡ 0
  pub taken : b.free ≡ false
  pub quiet : (b.allow_user_free ≡ false) ⊎ (b.has_transaction ≡ false)

module _ (a : Alloc) (i : ℕ) (b : AllocBuffer) (laid : IsLaidOut a i b) where
  buffer_size_lem : buffer_size a i b ≡ end_of a i - b.user_data
  unfolding buffer_size
  buffer_size_lem = elim (Option-cases (buffer_next a i)) [
    | inl last ↦ ground (arith, laid.ordered, laid.bounded, laid.small)
    | inr (next, e) ↦ ground (arith, laid.ordered, laid.bounded, laid.small)
  ]

  check_buffer_iff :
      (offset bytes : ℕ) → (check_buffer a i b offset bytes ≡ true) ↔ Usable a i b offset bytes
  unfolding check_buffer
  check_buffer_iff offset bytes = (
    λ h. record {
      within = ground (arith, buffer_size_lem, laid.ordered);
      aligned = ground arith;
      taken = ground arith;
      quiet = ground arith;
    },
    λ u. ground (arith, buffer_size_lem, laid.ordered),
  )

  -- For a buffer that is laid out as binder lays it out, with its pages there, the copy fails
  -- with -EINVAL exactly if the bytes do not lie within the buffer, the offset is not a multiple
  -- of 4, or the buffer is free or may be freed by user space during its transaction; else it
  -- returns 0 and has copied the bytes of the buffer from the offset on, across as many pages as
  -- they cross.
  pub copy_outcome :
      (offset bytes : ℕ)
      → let r = copy_from_buffer a i b offset bytes in
        ((Usable a i b offset bytes → ⊥) × (r ≡ some (einval, [])))
        ⊎ (Usable a i b offset bytes
            × ((out : List ℕ) × (r ≡ some (pos 0, out))
                × Reads a (b.user_data - a.base + offset) bytes out))
  unfolding copy_from_buffer do_buffer_copy
  copy_outcome offset bytes = elim (Bool-cases (check_buffer a i b offset bytes)) [
    | inr bad ↦ inl (λ u. absurd (ground (arith, (check_buffer_iff offset bytes).1 u)), rw bad refl)
    | inl good ↦
        let u = (check_buffer_iff offset bytes).0 good in
        let there : Present a (space_at a b laid.above offset) bytes =
          λ j lo hi. laid.there j (omega (arith, u.within)) (omega (arith, u.within)) in
        let (out, e, reads) =
          copy_loop_lem a b laid.above (suc bytes) offset bytes (omega arith)
            (omega (arith, u.within, laid.bounded, laid.small)) there in
        inr (u, (out, (rw good e), reads))
  ]
