-- ===== src/BinderAlloc.antt =====
-- LKM-Source/rkx_binder_alloc.c: the copy out of a binder buffer on kernels before 6.0, over the
-- pages of struct binder_alloc. A size_t, a binder_size_t and an address have 64 bits; a pointer to
-- a buffer is its place in alloc->buffers; pages have 4096 bytes.
pub mod Pages
pub mod Copy
pub mod Client
use re_kernel_x.Base.{
  ℕ, zero, suc, ◌+◌, ◌-◌, ◌*◌, ◌/◌, ◌%◌, ◌^◌, min, Bool, true, false, ◌&&◌, ◌||◌, not, List, [],
  ◌∷◌, ◌++◌, Option, none, some, ◌>>=◌, if◌then◌else◌, ◌==◌, leb, length, take, drop, get_elem?, ℤ,
  pos, einval,
}

abbrev pub page_size : ℕ
page_size = 4096

-- struct binder_buffer, as this file reads it
pub record AllocBuffer : Type 0 where
  pub user_data : ℕ
  pub free : Bool
  pub allow_user_free : Bool
  pub has_transaction : Bool

-- struct binder_alloc: `base` and `size` are its buffer and buffer_size; a page is `none` where
-- page_ptr is NULL.
pub record Alloc : Type 0 where
  pub base : ℕ
  pub size : ℕ
  pub buffers : List AllocBuffer
  pub pages : List (Option (List ℕ))

-- Subtraction of 64-bit words
abbrev pub sub64 : ℕ → ℕ → ℕ
sub64 a b = (a + (2 ^ 64 - b)) % 2 ^ 64

-- rk_binder_buffer_next
abbrev pub buffer_next : Alloc → ℕ → Option AllocBuffer
buffer_next a i = get_elem? a.buffers (suc i)

-- rk_binder_alloc_buffer_size, of the buffer `b` at place `i`
unfoldable pub buffer_size : Alloc → ℕ → AllocBuffer → ℕ
buffer_size a i b = elim (buffer_next a i) [
  | none ↦ sub64 ((a.base + a.size) % 2 ^ 64) b.user_data
  | some next ↦ sub64 next.user_data b.user_data
]

-- rk_check_buffer
unfoldable pub check_buffer : Alloc → ℕ → AllocBuffer → ℕ → ℕ → Bool
check_buffer a i b offset bytes =
    let size = buffer_size a i b in
    leb bytes size
    && leb offset (size - bytes)
    && offset % 4 == 0
    && not b.free
    && (not b.allow_user_free || not b.has_transaction)

-- rk_binder_alloc_get_page: the page and *pgoffp; `none` is a read outside of the array of pages or
-- a NULL page.
unfoldable pub get_page : Alloc → AllocBuffer → ℕ → Option (List ℕ × ℕ)
get_page a b offset =
    let space = (offset + sub64 b.user_data a.base) % 2 ^ 64 in
    get_elem? a.pages (space / page_size) >>= λ ptr. ptr >>= λ page. some (page, space % page_size)

-- rk_memcpy_from_page
abbrev pub memcpy_from_page : List ℕ → ℕ → ℕ → List ℕ
memcpy_from_page page offset len = take len (drop offset page)

-- The loop of rk_binder_alloc_do_buffer_copy, with fuel; its result and what is written at `ptr`.
-- `none` is a fault or out of fuel.
unfoldable pub copy_loop : ℕ → Alloc → Bool → AllocBuffer → ℕ → ℕ → Option (ℤ × List ℕ)
copy_loop zero a to_buffer b offset bytes = none
copy_loop (suc fuel) a to_buffer b offset bytes =
    if bytes == 0
    then some (pos 0, [])
    else (get_page a b offset >>= λ (page, pgoff).
        let size = min bytes (page_size - pgoff) in
        let rest = copy_loop fuel a to_buffer b ((offset + size) % 2 ^ 64) (bytes - size) in
        if to_buffer
        then some (einval, [])
        else (rest >>= λ (rc, out). some (rc, memcpy_from_page page pgoff size ++ out)))

-- A round takes at least one byte, so bytes + 1 rounds are enough.
unfoldable pub do_buffer_copy : Alloc → Bool → ℕ → AllocBuffer → ℕ → ℕ → Option (ℤ × List ℕ)
do_buffer_copy a to_buffer i b offset bytes =
    if not (check_buffer a i b offset bytes)
    then some (einval, [])
    else copy_loop (suc bytes) a to_buffer b offset bytes

unfoldable pub copy_from_buffer : Alloc → ℕ → AllocBuffer → ℕ → ℕ → Option (ℤ × List ℕ)
unfolding do_buffer_copy
copy_from_buffer a i b offset bytes = do_buffer_copy a false i b offset bytes
