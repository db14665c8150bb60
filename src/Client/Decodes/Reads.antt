-- ===== src/Client/Decodes/Reads.antt =====
-- The accessors of rkx_jni.cpp at attributes whose bytes are known.
use re_kernel_x.Base.{
  ℕ, ◌+◌, ◌-◌, ◌^◌, ◌<◌, ◌≡◌, ◌≢◌, refl, ap, ◌∙◌, min, true, false, List, [], ◌∷◌, ◌++◌, Option,
  none, some, ◌>>=◌, arith, ◌==◌, ltb, leb, take, drop, length, length-append, All, ℤ, signed32,
  unsigned32, IsInt32, signed32-unsigned32, CString, Bool-cases, inl, inr,
}
use re_kernel_x.Nla.{nla_data, get_s32}
use re_kernel_x.Nla.Wire.{
  Attr, attr, Fits, header, padding, bytes32, At, le32-bytes32, nla_len-At, payload_at,
}
use re_kernel_x.Nla.Builder.Bytes.{take-middle}
use re_kernel_x.Nla.Parses.{Points}
use re_kernel_x.Client.Events.{c_string, copy_name}

pub Points-some :
    (buf : List ℕ) (o : Option ℕ) (a : Attr)
    → Points buf o (some a)
    → (nla : ℕ) × (o ≡ some nla) × At buf nla a
Points-some buf none a p = elim p [ ]
Points-some buf (some nla) a p = (nla, refl, p)

pub Points-none : (buf : List ℕ) (o : Option ℕ) → Points buf o none → o ≡ none
Points-none buf none p = refl
Points-none buf (some nla) p = elim p [ ]

-- An attribute with an `s32`.
abbrev pub int_attr : ℕ → ℤ → Attr
int_attr type v = attr type (bytes32 (unsigned32 v))

pub get_s32-At :
    (buf : List ℕ) (o : Option ℕ) (type : ℕ) (v out : ℤ)
    → Points buf o (some (int_attr type v))
    → type < 2 ^ 16
    → IsInt32 v
    → get_s32 buf o out ≡ some v
get_s32-At buf o type v out points small int =
    let a = int_attr type v in
    let fits : Fits a = (omega arith, small) in
    let (nla, e, at) = Points-some buf o a points in
    let (split, here) = payload_at buf nla a at fits in
    let read =
      le32-bytes32 buf (at.before ++ header a) (padding a ++ at.after) (nla_data nla) (unsigned32 v)
        split here in
    rw (e, nla_len-At buf nla a at fits, read) (ap some (signed32-unsigned32 v int))

-- A name with no zero in it ends where it was meant to.
pub c_string-zero :
    (name : CString) (rest : List ℕ) → All (λ b. b ≢ 0) name → c_string (name ++ 0 ∷ rest) ≡ name
c_string-zero [] rest clean = refl
c_string-zero (b ∷ name) rest clean =
    let this : b == 0 ≡ false = ground (arith, clean.0) in
    rw this (ap (λ l. b ∷ l) (c_string-zero name rest clean.1))

pub copy_name-At :
    (buf : List ℕ) (o : Option ℕ) (type : ℕ) (name : CString)
    → Points buf o (some (attr type (name ++ 0 ∷ [])))
    → type < 2 ^ 16
    → length name < 140
    → All (λ b. b ≢ 0) name
    → copy_name buf o ≡ some name
unfolding copy_name
copy_name-At buf o type name points small short clean =
    let text = name ++ 0 ∷ [] in
    let a = attr type text in
    let size : length text ≡ length name + 1 = length-append name (0 ∷ []) in
    let fits : Fits a = (omega arith, small) in
    let (nla, e, at) = Points-some buf o a points in
    let (split, here) = payload_at buf nla a at fits in
    let front = at.before ++ header a in
    let back = padding a ++ at.after in
    let room : min (length text) 140 ≡ length text = omega arith in
    let inside : leb (nla_data nla + length text) (length buf) ≡ true =
      ground
        (arith, ap length split, length-append front (text ++ back), length-append text back) in
    let bytes : take (length text) (drop (nla_data nla) buf) ≡ text =
      ap (λ l. take (length text) (drop (nla_data nla) l)) split
      ∙ take-middle (nla_data nla) front text back here in
    rw (e, nla_len-At buf nla a at fits, room, inside, bytes)
      (ap some (c_string-zero name [] clean))

pub signed32-IsInt32 : (w : ℕ) → w < 2 ^ 32 → IsInt32 (signed32 w)
signed32-IsInt32 w h = elim (Bool-cases (ltb w (2 ^ 31))) [
  | inl low ↦ rw low (ground arith)
  | inr high ↦ let low : 2 ^ 32 - w - 1 < 2 ^ 31 = ground arith in rw high low
]

-- The next step of a chain.
pub bind_some :
    {A B : Type 0} (m : Option A) (f : A → Option B) (a : A) (r : Option B)
    → m ≡ some a
    → f a ≡ r
    → (m >>= f) ≡ r
bind_some m f a r e h = rw e h
