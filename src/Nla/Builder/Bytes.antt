-- ===== src/Nla/Builder/Bytes.antt =====
-- Bytes written behind a prefix of a buffer.
use re_kernel_x.Base.{
  ℕ, zero, suc, ◌+◌, ◌≤◌, ◌≡◌, refl, sym, ap, ◌∙◌, Bool, true, false, List, [], ◌∷◌, ◌++◌, some,
  arith, if◌then◌else◌, leb, take, drop, length, length-append,
}
use mathlib.Core.List.{append_assoc, append-nil}
use Prim.Native.Nat.add
use re_kernel_x.Nla.Builder.{store}

pub take-append : {A : Type 0} (xs ys : List A) → take (length xs) (xs ++ ys) ≡ xs
take-append [] ys = refl
take-append (x ∷ xs) ys = ap (λ l. x ∷ l) (take-append xs ys)

drop-append : (n : ℕ) (xs ys : List ℕ) → drop (length xs + n) (xs ++ ys) ≡ drop n ys
drop-append n [] ys = rw (add.zero n) refl
drop-append n (x ∷ xs) ys =
    let next : suc (length xs) + n ≡ suc (length xs + n) = omega arith in
    ap (λ k. drop k (x ∷ xs ++ ys)) next ∙ drop-append n xs ys

drop_nil : (n : ℕ) → drop {A = ℕ} n [] ≡ []
drop_nil zero = refl
drop_nil (suc n) = refl

pub drop-drop : (m n : ℕ) (xs : List ℕ) → drop m (drop n xs) ≡ drop (n + m) xs
drop-drop m zero xs = rw (add.zero m) refl
drop-drop m (suc n) [] = drop_nil m ∙ sym (drop_nil (suc n + m))
drop-drop m (suc n) (x ∷ xs) =
    let next : suc n + m ≡ suc (n + m) = omega arith in
    drop-drop m n xs ∙ sym (ap (λ k. drop k (x ∷ xs)) next)

pub store-append :
    (i : ℕ) (xs bytes rest : List ℕ)
    → length xs ≡ i
    → length bytes ≤ length rest
    → store (xs ++ rest) i bytes ≡ some ((xs ++ bytes) ++ drop (length bytes) rest)
store-append i xs bytes rest l fits =
    let inside : leb (length xs + length bytes) (length (xs ++ rest)) ≡ true =
      ground (arith, length-append xs rest) in
    rw (← l, inside, take-append xs rest, drop-append (length bytes) xs rest)
      (ap some (sym (append_assoc xs bytes (drop (length bytes) rest))))

-- A write under a test that fails only where there is nothing to write.
pub store_if :
    (c : Bool) (i : ℕ) (xs bytes rest : List ℕ)
    → length xs ≡ i
    → length bytes ≤ length rest
    → (c ≡ false → length bytes ≡ 0)
    → (if c then store (xs ++ rest) i bytes else some (xs ++ rest))
      ≡ some ((xs ++ bytes) ++ drop (length bytes) rest)
store_if true i xs bytes rest l fits nothing = store-append i xs bytes rest l fits
store_if false i xs [] rest l fits nothing = ap (λ l. some (l ++ rest)) (sym (append-nil xs))
store_if false i xs (b ∷ bytes) rest l fits nothing =
    let none_left = nothing refl in absurd (omega arith)

pub take-middle :
    (i : ℕ) (xs ys zs : List ℕ) → length xs ≡ i → take (length ys) (drop i (xs ++ (ys ++ zs))) ≡ ys
take-middle i xs ys zs l =
    let here : i ≡ length xs + 0 = omega arith in
    rw (here, drop-append 0 xs (ys ++ zs)) (take-append ys zs)
