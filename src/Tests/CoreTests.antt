-- ===== src/Tests/CoreTests.antt =====
-- A generic netlink core that does what System/Core says it documents: it takes the attributes of a
-- message apart, checks them and hands out their payloads.
use re_kernel_x.Base.{
  ℕ, zero, suc, ◌+◌, ◌-◌, ◌*◌, ◌/◌, ◌%◌, ◌≤◌, ◌<◌, ◌≡◌, refl, sym, ap, ◌∙◌, true, false, ◌||◌, List,
  [], ◌∷◌, ◌++◌, Option, none, some, ◌>>=◌, arith, if◌then◌else◌, get_elem?, take, drop, length,
  length-append, All, Bool-cases, inl, inr,
}
use mathlib.Core.List.{append_assoc}
use re_kernel_x.Nla.{nla_align}
use re_kernel_x.Nla.Wire.{Attr, attr, Fits, kind, attr_len, padding, wire_of, wire, length-wire_of}
use re_kernel_x.Genl.Policy.{Check, nested, u32, u8, nul_string, s32, policy, Payloads}
use re_kernel_x.System.{GenlCore}
use re_kernel_x.System.Core.{
  Documented, sound, too_long, all_sound, any_too_long, payloads_of, to_family,
}

take_front : (xs ys : List ℕ) (n : ℕ) → length xs ≡ n → take n (xs ++ ys) ≡ xs
take_front [] ys zero e = refl
take_front [] ys (suc n) e = absurd (omega arith)
take_front (x ∷ xs) ys zero e = absurd (omega arith)
take_front (x ∷ xs) ys (suc n) e = ap (λ t. x ∷ t) (take_front xs ys n (omega arith))

drop_front : (xs ys : List ℕ) (n : ℕ) → length xs ≡ n → drop n (xs ++ ys) ≡ ys
drop_front [] ys zero e = refl
drop_front [] ys (suc n) e = absurd (omega arith)
drop_front (x ∷ xs) ys zero e = absurd (omega arith)
drop_front (x ∷ xs) ys (suc n) e = drop_front xs ys n (omega arith)

-- The attributes of a message.
unfoldable pub unwire : ℕ → List ℕ → Option (List Attr)
unwire zero bytes = none
unwire (suc fuel) [] = some []
unwire (suc fuel) (l0 ∷ l1 ∷ t0 ∷ t1 ∷ bytes) =
    let n = l0 + 256 * l1 in
    let rest = unwire fuel (drop (nla_align n - 4) bytes) in
    rest >>= λ attrs. some (attr (t0 + 256 * t1) (take (n - 4) bytes) ∷ attrs)
unwire (suc fuel) (b ∷ []) = none
unwire (suc fuel) (b ∷ c ∷ []) = none
unwire (suc fuel) (b ∷ c ∷ d ∷ []) = none

unwire-wire :
    (attrs : List Attr) (fuel : ℕ)
    → All Fits attrs
    → length attrs < fuel
    → unwire fuel (wire attrs) ≡ some attrs
unfolding unwire
unwire-wire [] zero fits f = absurd (omega arith)
unwire-wire [] (suc fuel) fits f = refl
unwire-wire (a ∷ as') zero fits f = absurd (omega arith)
unwire-wire (a ∷ as') (suc fuel) fits f =
    let n : ℕ = attr_len a in
    let word : n % 256 + 256 * (n / 256) ≡ n = omega arith in
    let type : a.type % 256 + 256 * (a.type / 256) ≡ a.type = omega arith in
    let front : drop (nla_align n - 4) ((a.payload ++ padding a) ++ wire as') ≡ wire as' =
      drop_front (a.payload ++ padding a) (wire as') (nla_align n - 4)
        (omega (arith, length-wire_of a)) in
    let payload : take (n - 4) ((a.payload ++ padding a) ++ wire as') ≡ a.payload =
      ap (take (n - 4)) (append_assoc a.payload (padding a) (wire as'))
      ∙ take_front a.payload (padding a ++ wire as') (n - 4) (omega arith) in
    rw (word, type, front, unwire-wire as' fuel fits.1 (omega arith), payload) refl

count_lem : (attrs : List Attr) → length attrs ≤ length (wire attrs)
count_lem [] = omega arith
count_lem (a ∷ as') =
    omega (arith, count_lem as', length-append (wire_of a) (wire as'), length-wire_of a)

-- Checked attributes.
abbrev hand_out : Option ℕ → Option (List Attr) → Option (ℕ × Payloads)
hand_out cmd attrs =
    cmd >>= λ c. attrs >>= λ as'. if all_sound as' then some (c, payloads_of as') else none

unfoldable pub admit_all : List ℕ → Option (ℕ × Payloads)
unfolding unwire
admit_all message =
    hand_out (get_elem? message 16) (unwire (suc (length message)) (drop 20 message))

abbrev pub plain_core : GenlCore
plain_core = record { id = 27; admit = admit_all }

admit_lem :
    (seq cmd : ℕ) (attrs : List Attr)
    → All Fits attrs
    → plain_core.admit (to_family plain_core seq cmd attrs) ≡ hand_out (some cmd) (some attrs)
unfolding admit_all
admit_lem seq cmd attrs fits =
    let whole : ℕ = length (to_family plain_core seq cmd attrs) in
    let fuel : length attrs < suc whole = omega (arith, count_lem attrs) in
    ap (hand_out (some cmd)) (unwire-wire attrs (suc whole) fits fuel)

too_long-sound :
    (check : Option Check) (p : List ℕ) → too_long check p ≡ true → sound check p ≡ false
too_long-sound none p e = refl
too_long-sound (some nested) p e = refl
too_long-sound (some u32) p e = absurd (ground arith)
too_long-sound (some u8) p e = absurd (ground arith)
too_long-sound (some s32) p e = absurd (ground arith)
too_long-sound (some (nul_string n)) p e = ground arith

any_too_long-all_sound : (attrs : List Attr) → any_too_long attrs ≡ true → all_sound attrs ≡ false
any_too_long-all_sound [] e = absurd (ground arith)
any_too_long-all_sound (a ∷ as') e = elim (Bool-cases (too_long (policy (kind a)) a.payload)) [
  | inl long ↦ rw (too_long-sound (policy (kind a)) a.payload long) refl
  | inr short ↦
      let later : any_too_long as' ≡ true = ap (λ b. b || any_too_long as') (sym short) ∙ e in
      rw (any_too_long-all_sound as' later) (ground arith)
]

pub plain_core-Documented : Documented plain_core
plain_core-Documented = record {
  admits = λ seq cmd attrs fits good.
      (payloads_of attrs, admit_lem seq cmd attrs fits ∙ rw good refl, λ k low high. refl);
  refuses = λ seq cmd attrs fits bad.
      admit_lem seq cmd attrs fits ∙ rw (any_too_long-all_sound attrs bad) refl;
}
