-- ===== src/BinderAlloc/Pages.antt =====
-- The bytes behind an address of the allocator's space, page by page.
use re_kernel_x.Base.{
  get_elem?-take, get_elem?-drop, get_elem?-append_left, get_elem?-append_right, ℕ, ◌+◌, ◌-◌, ◌*◌,
  ◌/◌, ◌%◌, ◌≤◌, ◌<◌, ◌≡◌, sym, ap, ◌∙◌, List, ◌++◌, Option, some, ◌>>=◌, arith, length, take, drop,
  get_elem?, length-append, length-take, length-drop, ltb, Bool-cases, inl, inr,
}
use re_kernel_x.BinderAlloc.{Alloc, page_size}

-- The byte at an offset of the space.
unfoldable pub byte_at : Alloc → ℕ → Option ℕ
byte_at a s =
    get_elem? a.pages (s / page_size) >>= λ ptr. ptr >>= λ page. get_elem? page (s % page_size)

-- The bytes `out` stand at the offsets from s on.
abbrev pub Reads : Alloc → ℕ → ℕ → List ℕ → Type 0
Reads a s n out = (length out ≡ n) × ((k : ℕ) → k < n → get_elem? out k ≡ byte_at a (s + k))

-- Every page that has an offset from s to s + n is there, with 4096 bytes.
abbrev pub Present : Alloc → ℕ → ℕ → Type 0
Present a s n =
    (i : ℕ)
    → s < (i + 1) * page_size
    → i * page_size < s + n
    → (page : List ℕ) × (get_elem? a.pages i ≡ some (some page)) × (length page ≡ page_size)

module _ (a : Alloc) (s n : ℕ) (page : List ℕ)
    (found : get_elem? a.pages (s / page_size) ≡ some (some page)) (whole : length page ≡ page_size)
    (fits : s % page_size + n ≤ page_size) where
  -- A piece of one page.
  pub page-Reads : Reads a s n (take n (drop (s % page_size) page))
  unfolding byte_at
  page-Reads = (
    omega (arith, length-take n (drop (s % page_size) page), length-drop (s % page_size) page),
    λ k lt.
        let same : (s + k) / page_size ≡ s / page_size = omega arith in
        let within : (s + k) % page_size ≡ s % page_size + k = omega arith in
        rw (
          get_elem?-take n k (drop (s % page_size) page) lt,
          get_elem?-drop (s % page_size) k page,
          same,
          found,
          within,
        ),
  )

-- Two pieces, one behind the other.
pub append-Reads :
    (a : Alloc) (s n m : ℕ) (xs ys : List ℕ)
    → Reads a s n xs
    → Reads a (s + n) m ys
    → Reads a s (n + m) (xs ++ ys)
append-Reads a s n m xs ys (l1, r1) (l2, r2) = (
  omega (arith, length-append xs ys),
  λ k lt. elim (Bool-cases (ltb k n)) [
    | inl left ↦ get_elem?-append_left xs ys k (ground arith) ∙ r1 k (ground arith)
    | inr right ↦
        let le : n ≤ k = ground arith in
        let m : ℕ = k - n in
        let at : length xs + m ≡ k = omega arith in
        let back : s + n + m ≡ s + k = omega arith in
        ap (get_elem? (xs ++ ys)) (sym at)
        ∙ get_elem?-append_right xs ys m
        ∙ r2 m (omega arith)
        ∙ ap (byte_at a) back
  ],
)
