-- ===== src/BinderKp/Equal.antt =====
-- rkx_binder_buffer_data_equal compares two buffers in pieces of 64 bytes; it ends, and it decides
-- whether they hold the same bytes.
use re_kernel_x.Base.{
  ℕ, zero, suc, ◌+◌, ◌%◌, ◌≤◌, ◌<◌, ◌≡◌, ◌≢◌, refl, ap, ◌↔◌, inl, inr, true, ◌&&◌, List, [], ◌∷◌,
  none, some, arith, ◌==◌, ltb, length, take, drop, str_eq, str_eq_iff, Bool-cases, length-drop,
}
use Prim.Native.Nat.add
use re_kernel_x.BinderKp.{Buffer, Copier, chunk_at, equal_loop, buffer_data_equal}

-- What binder_alloc_copy_from_buffer promises of a buffer that is in use: at an aligned offset it
-- copies any bytes that lie within it (BinderAlloc shows that the copy for old kernels does).
abbrev pub CopiesBytes : Copier → Buffer → Type 0
CopiesBytes copy b =
    (offset n : ℕ)
    → offset % 4 ≡ 0
    → offset + n ≤ b.data_size
    → copy b offset n ≡ some (take n (drop offset b.contents))

-- A buffer holds data_size bytes.
abbrev pub IsFull : Buffer → Type 0
IsFull b = length b.contents ≡ b.data_size

drop-drop : (n m : ℕ) (xs : List ℕ) → drop m (drop n xs) ≡ drop (n + m) xs
drop-drop zero m xs = rw (add.zero m)
drop-drop (suc n) zero [] = rw (add.suc n 0)
drop-drop (suc n) (suc m) [] = rw (add.suc n (suc m))
drop-drop (suc n) m (x ∷ xs) = rw (add.suc n m) (drop-drop n m xs)

str_eq-split :
    (n : ℕ) (xs ys : List ℕ)
    → length xs ≡ length ys
    → str_eq xs ys ≡ (str_eq (take n xs) (take n ys) && str_eq (drop n xs) (drop n ys))
unfolding str_eq
str_eq-split zero xs ys h = refl
str_eq-split (suc n) [] [] h = refl
str_eq-split (suc n) [] (y ∷ ys) h = absurd (omega arith)
str_eq-split (suc n) (x ∷ xs) [] h = absurd (omega arith)
str_eq-split (suc n) (x ∷ xs) (y ∷ ys) h = ground (arith, str_eq-split n xs ys)

-- With more fuel than bytes are left, the comparison of two buffers ends, whatever the copies give.
pub equal_loop-ends :
    (fuel : ℕ) (copy : Copier) (b1 b2 : Buffer) (total p : ℕ)
    → total < p + fuel
    → p ≤ total
    → equal_loop fuel copy b1 b2 total p ≢ none
unfolding equal_loop
equal_loop-ends zero copy b1 b2 total p h k = absurd (omega arith)
equal_loop-ends (suc fuel) copy b1 b2 total p h k =
    ground (arith, equal_loop-ends fuel copy b1 b2 total (p + chunk_at total p))

drop_all : (n : ℕ) (xs : List ℕ) → length xs ≤ n → drop n xs ≡ []
drop_all zero [] h = refl
drop_all zero (x ∷ xs) h = absurd (omega arith)
drop_all (suc n) [] h = refl
drop_all (suc n) (x ∷ xs) h = drop_all n xs (omega arith)

drop_end :
    (xs ys : List ℕ) (p : ℕ) → length xs ≤ p → length ys ≤ p → str_eq (drop p xs) (drop p ys) ≡ true
drop_end xs ys p h k = rw (drop_all p xs h, drop_all p ys k) (unfold str_eq in refl)

module _ (copy : Copier) (b1 b2 : Buffer) (copies1 : CopiesBytes copy b1)
    (copies2 : CopiesBytes copy b2) (full1 : IsFull b1) (full2 : IsFull b2)
    (sizes : b1.data_size ≡ b2.data_size) where
  equal_loop_lem :
      (fuel p : ℕ)
      → b1.data_size < p + fuel
      → p ≤ b1.data_size
      → (p < b1.data_size → p % 64 ≡ 0)
      → equal_loop fuel copy b1 b2 b1.data_size p
        ≡ some (str_eq (drop p b1.contents) (drop p b2.contents))
  unfolding equal_loop
  equal_loop_lem zero p h k al = absurd (omega arith)
  equal_loop_lem (suc fuel) p h k al = elim (Bool-cases (ltb p b1.data_size)) [
    | inr done ↦ rw done (ground (arith, drop_end b1.contents b2.contents p))
    | inl more ↦
        let n : ℕ = chunk_at b1.data_size p in
        let lt : p < b1.data_size = ground arith in
        let aligned : p % 64 ≡ 0 = al lt in
        let fits : p + n ≤ b1.data_size = ground arith in
        rw
          (
            more,
            copies1 p n (omega arith) fits,
            copies2 p n (omega arith) (omega arith),
            str_eq-split n (drop p b1.contents) (drop p b2.contents)
                (omega (arith, length-drop p b1.contents, length-drop p b2.contents)),
            drop-drop p n b1.contents,
            drop-drop p n b2.contents,
          )
          (ground (arith, equal_loop_lem fuel (p + n)))
  ]

-- Of two buffers that hold as many bytes as they say, and can be copied, the comparison answers
-- true exactly if they hold the same bytes.
pub buffer_data_equal_iff :
    (copy : Copier)
    → (b1 b2 : Buffer) → CopiesBytes copy b1
    → CopiesBytes copy b2
    → IsFull b1
    → IsFull b2
    → (buffer_data_equal (some copy) b1 b2 ≡ true) ↔ (b1.contents ≡ b2.contents)
unfolding buffer_data_equal
buffer_data_equal_iff copy b1 b2 copies1 copies2 full1 full2 =
    elim (Bool-cases (b1.data_size == b2.data_size)) [
      | inr ne ↦ rw ne ((λ h. cc), λ e. ground (arith, ap length e))
      | inl same ↦
          rw
            (
              same,
              equal_loop_lem copy b1 b2 copies1 copies2 full1 full2 (ground arith)
                  (suc b1.data_size) 0 (omega arith) (omega arith) (λ h. refl),
            )
            (str_eq_iff b1.contents b2.contents)
    ]
