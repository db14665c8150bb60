-- ===== src/Tests/BinderAllocTests.antt =====
-- The copy of rkx_binder_alloc.c out of a buffer that crosses a page.
use re_kernel_x.Base.{
  ℕ, ◌+◌, ◌-◌, ◌<◌, ◌≡◌, refl, ◌⊎◌, inr, true, false, [], ◌∷◌, some, arith, pos, einval, List,
  replicate, take, drop, length-replicate, zero, suc,
}
use re_kernel_x.BinderKp.{Buffer}
use re_kernel_x.BinderKp.Equal.{CopiesBytes}
use re_kernel_x.BinderAlloc.{
  Alloc, AllocBuffer, copy_from_buffer, do_buffer_copy, copy_loop, get_page, check_buffer,
  buffer_size,
}
use re_kernel_x.BinderAlloc.Pages.{Present, Reads, page-Reads}
use re_kernel_x.BinderAlloc.Copy.{IsLaidOut, Usable, copy_outcome}
use re_kernel_x.BinderAlloc.Client.{copier, InUse, copier-CopiesBytes}

abbrev page : ℕ → List ℕ
page x = replicate 4096 x

abbrev two_pages : Alloc
two_pages = record {
  base = 40960;
  size = 8192;
  buffers =
      (record { user_data = 45040; free = false; allow_user_free = true; has_transaction = false })
      ∷ [];
  pages = some (page 1) ∷ some (page 2) ∷ [];
}

abbrev crossing : AllocBuffer
crossing = record {
  user_data = 45040;
  free = false;
  allow_user_free = true;
  has_transaction = false;
}

present : (s n : ℕ) → s + n < 8193 → Present two_pages s n
present s n h zero lo hi = (page 1, refl, length-replicate {A = ℕ} 4096 1)
present s n h (suc zero) lo hi = (page 2, refl, length-replicate {A = ℕ} 4096 2)
present s n h (suc (suc i)) lo hi = absurd (omega arith)

laid : IsLaidOut two_pages 0 crossing
laid = record {
  found = refl;
  above = omega arith;
  ordered = omega arith;
  bounded = omega arith;
  small = omega arith;
  there = present 4080 4112 (omega arith);
}

copies_across :
    copy_from_buffer two_pages 0 crossing 12 8 ≡ some (pos 0, 1 ∷ 1 ∷ 1 ∷ 1 ∷ 2 ∷ 2 ∷ 2 ∷ 2 ∷ [])
unfolding copy_from_buffer do_buffer_copy copy_loop get_page check_buffer buffer_size
copies_across = refl

copy_outcome_example :
    let r = copy_from_buffer two_pages 0 crossing 12 8 in
    ((Usable two_pages 0 crossing 12 8 → ⊥) × (r ≡ some (einval, [])))
    ⊎ (Usable two_pages 0 crossing 12 8
        × ((out : List ℕ) × (r ≡ some (pos 0, out)) × Reads two_pages (45040 - 40960 + 12) 8 out))
copy_outcome_example = copy_outcome two_pages 0 crossing laid 12 8

-- The first bytes of that buffer.
abbrev head : Buffer
head = record {
  data_size = 8;
  offsets_size = 0;
  pid = pos 100;
  node_ptr = 4096;
  node_cookie = 7;
  contents = take 8 (drop 4080 (page 1));
}

in_use : InUse two_pages (λ kb. (0, crossing)) head
in_use = record {
  laid = laid;
  taken = refl;
  quiet = inr refl;
  room = omega arith;
  holds = page-Reads two_pages 4080 8 (page 1) refl (length-replicate {A = ℕ} 4096 1) (omega arith);
}

copier-CopiesBytes_example : CopiesBytes (copier two_pages (λ kb. (0, crossing))) head
copier-CopiesBytes_example = copier-CopiesBytes two_pages (λ kb. (0, crossing)) head in_use
