-- ===== src/Binder/Token.antt =====
-- The interface name in a parcel: the loop that takes every other byte behind the parcel's header,
-- against the text that a client writes there in UTF-16.
use re_kernel_x.Base.{
  ℕ, zero, suc, ◌+◌, ◌-◌, ◌*◌, ◌≤◌, ◌≡◌, ◌≢◌, refl, sym, ap, inl, inr, ◌∙◌, List, [], ◌∷◌, ◌++◌,
  some, arith, if◌then◌else◌, ◌==◌, ltb, length, take, drop, get_elem?, CString, All, Bool-cases,
  length-take, length-drop, take_all, ==_iff,
}
use mathlib.Core.Path.{subst}
use native.Mathlib.Numerals.{add-two}
use Prim.Native.Nat.add
use re_kernel_x.Binder.{token_loop, token_name, token_size, parcel_offset}

-- The low bytes of the 16-bit units of a text, up to the first that is zero.
unfoldable pub low_bytes : List ℕ → CString
low_bytes [] = []
low_bytes (a ∷ []) = []
low_bytes (a ∷ b ∷ r) = if a == 0 then [] else a ∷ low_bytes r

drop-add-two :
    (p : ℕ) (xs : List ℕ) (a b : ℕ) (r : List ℕ) → drop p xs ≡ a ∷ b ∷ r → drop (suc (suc p)) xs ≡ r
drop-add-two zero (x ∷ []) a b r e = ground arith
drop-add-two zero (x ∷ y ∷ xs) a b r e = ground arith
drop-add-two zero [] a b r e = ground arith
drop-add-two (suc p) [] a b r e = ground arith
drop-add-two (suc p) (x ∷ xs) a b r e = drop-add-two p xs a b r e

get_elem?-drop :
    (p : ℕ) (xs : List ℕ) (a : ℕ) (r : List ℕ) → drop p xs ≡ a ∷ r → get_elem? xs p ≡ some a
get_elem?-drop zero [] a r e = ground arith
get_elem?-drop zero (x ∷ xs) a r e = ground arith
get_elem?-drop (suc p) [] a r e = ground arith
get_elem?-drop (suc p) (x ∷ xs) a r e = get_elem?-drop p xs a r e

low_bytes-length : (xs : List ℕ) → 2 * length (low_bytes xs) ≤ length xs
unfolding low_bytes
low_bytes-length [] = omega arith
low_bytes-length (a ∷ []) = omega arith
low_bytes-length (a ∷ b ∷ r) = ground (arith, low_bytes-length r)

pub token_loop_lem :
    (n : ℕ) (buf : List ℕ) (p : ℕ) (xs : List ℕ)
    → drop p buf ≡ xs
    → p ≤ length buf
    → token_loop n buf (length buf) (p + 1) p ≡ some (take n (low_bytes xs))
unfolding token_loop low_bytes
token_loop_lem zero buf p xs e h = refl
token_loop_lem (suc n) buf p [] e h = ground (arith, ap length e, length-drop p buf)
token_loop_lem (suc n) buf p (a ∷ []) e h = ground (arith, ap length e, length-drop p buf)
token_loop_lem (suc n) buf p (a ∷ b ∷ r) e h =
    let long : p + 2 ≤ length buf = omega (arith, ap length e, length-drop p buf) in
    ground (
      arith,
      long,
      get_elem?-drop p buf a (b ∷ r) e,
      token_loop_lem n buf (p + 2) r (rw add-two (drop-add-two p buf a b r e)) (omega arith),
    )

pub drop_all : (n : ℕ) (xs : List ℕ) → length xs ≤ n → drop n xs ≡ []
drop_all zero [] h = refl
drop_all zero (x ∷ xs) h = absurd (omega arith)
drop_all (suc n) [] h = refl
drop_all (suc n) (x ∷ xs) h = drop_all n xs (omega arith)

-- What a copied buffer of at most 140 bytes holds behind the parcel's header.
abbrev pub token_of : List ℕ → CString
token_of buf = low_bytes (drop parcel_offset buf)

pub token_of-length : (buf : List ℕ) → length buf ≤ token_size → length (token_of buf) ≤ 62
token_of-length buf h =
    omega (arith, low_bytes-length (drop parcel_offset buf), length-drop parcel_offset buf)

not_full :
    (name : CString)
    → length name ≤ 62
    → (if length name == token_size then take (token_size - 1) name else name) ≡ name
not_full name h = elim (Bool-cases (length name == token_size)) [
  | inl e ↦ let f = (==_iff (length name) token_size).0 e in absurd (omega arith)
  | inr e ↦ rw e
]

-- The loop of the hook on transactions stays inside of the bytes that were copied, and its result
-- is never cut: it has 62 bytes at most.
pub token_name_lem :
    (buf : List ℕ) → length buf ≤ token_size → token_name buf (length buf) ≡ some (token_of buf)
unfolding token_name
token_name_lem buf h = elim (Bool-cases (ltb parcel_offset (length buf))) [
  | inr short ↦ rw (short, drop_all parcel_offset buf (ground arith)) (unfold low_bytes in refl)
  | inl long ↦
      let n = token_of-length buf h in
      rw
        (
          long,
          token_loop_lem token_size buf parcel_offset (drop parcel_offset buf) refl (ground arith),
          take_all token_size (token_of buf) (omega arith),
        )
        (ap some (not_full (token_of buf) n))
]

-- The bytes of a text of bytes in UTF-16, little endian.
unfoldable pub utf16 : CString → List ℕ
utf16 [] = []
utf16 (c ∷ cs) = c ∷ 0 ∷ utf16 cs

low_bytes-utf16 :
    (k m : ℕ) (name : CString) (rest : List ℕ)
    → m ≡ 2 * k
    → All (λ c. c ≢ 0) name
    → low_bytes (take m (utf16 name ++ 0 ∷ 0 ∷ rest)) ≡ take k name
unfolding low_bytes utf16
low_bytes-utf16 zero zero name rest e a = refl
low_bytes-utf16 zero (suc m) name rest e a = absurd (omega arith)
low_bytes-utf16 (suc k) zero name rest e a = absurd (omega arith)
low_bytes-utf16 (suc k) (suc zero) name rest e a = absurd (omega arith)
low_bytes-utf16 (suc k) (suc (suc m)) [] rest e a = refl
low_bytes-utf16 (suc k) (suc (suc m)) (c ∷ cs) rest e a =
    ground (arith, low_bytes-utf16 k m cs rest (omega arith) a.1, a.0)

take-nil : (m : ℕ) → take {A = ℕ} m [] ≡ []
take-nil zero = refl
take-nil (suc m) = refl

drop-take : (n m : ℕ) (xs : List ℕ) → drop n (take (n + m) xs) ≡ take m (drop n xs)
drop-take zero m xs = rw (add.zero m)
drop-take (suc n) m [] = rw (add.suc n m) (sym (take-nil m))
drop-take (suc n) m (x ∷ xs) = rw (add.suc n m) (drop-take n m xs)

drop-append : (xs ys : List ℕ) → drop (length xs) (xs ++ ys) ≡ ys
drop-append [] ys = refl
drop-append (x ∷ xs) ys = drop-append xs ys

-- A parcel: 16 bytes of header, the interface name in UTF-16 with its terminator, and what follows.
abbrev pub parcel : List ℕ → CString → List ℕ → List ℕ
parcel header name rest = header ++ (utf16 name ++ 0 ∷ 0 ∷ rest)

abbrev pub copied : List ℕ → List ℕ
copied = take token_size

pub token_of-parcel :
    (header : List ℕ) (name : CString) (rest : List ℕ)
    → length header ≡ parcel_offset
    → All (λ c. c ≢ 0) name
    → token_of (copied (parcel header name rest)) ≡ take 62 name
token_of-parcel header name rest e a =
    let tail : List ℕ = utf16 name ++ 0 ∷ 0 ∷ rest in
    let whole : drop parcel_offset (header ++ tail) ≡ tail =
      subst (λ n. drop n (header ++ tail) ≡ tail) e (drop-append header tail) in
    ap low_bytes (drop-take parcel_offset 124 (header ++ tail) ∙ ap (take 124) whole)
    ∙ low_bytes-utf16 62 124 name rest refl a

-- Of a parcel whose header is 16 bytes long and whose interface name has no zero byte, the hook on
-- transactions reads the first 62 bytes of the name, so the whole of every name that is no longer.
pub token_name-parcel :
    (header : List ℕ) (name : CString) (rest : List ℕ)
    → length header ≡ parcel_offset
    → All (λ c. c ≢ 0) name
    → let buf = copied (parcel header name rest) in
      token_name buf (length buf) ≡ some (take 62 name)
token_name-parcel header name rest e a =
    token_name_lem (copied (parcel header name rest))
      (omega (arith, length-take token_size (parcel header name rest)))
    ∙ ap some (token_of-parcel header name rest e a)
