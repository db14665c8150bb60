-- ===== src/Nla/Bounds.antt =====
-- The reader of rkx_nla.h stays within the bytes that it is given, whatever they are.
use re_kernel_x.Base.{
  ℕ, zero, suc, ◌+◌, ◌-◌, ◌*◌, ◌%◌, ◌^◌, ◌≤◌, ◌<◌, ◌≡◌, refl, inl, inr, Bool, true, false, ◌&&◌,
  List, [], ◌∷◌, some, arith, if◌then◌else◌, ◌==◌, ltb, leb, get_elem?, length, All, Bool-cases,
  Option-cases, ◌∙◌, ℤ, signed32,
}
use re_kernel_x.Nla.{
  le16, le32, nla_align, nla_type, nla_data, nla_len, nla_ok, Table, no_attrs, note, parse_loop,
  parse, parse_nested, get_s32,
}

-- A buffer of bytes.
abbrev pub IsBytes : List ℕ → Type 0
IsBytes = All (λ b. b < 256)

abbrev all_bytes : List ℕ → Bool
all_bytes [] = true
all_bytes (b ∷ bs) = ltb b 256 && all_bytes bs

pub all_bytes-IsBytes : (buf : List ℕ) → all_bytes buf ≡ true → IsBytes buf
all_bytes-IsBytes [] e = tt
all_bytes-IsBytes (b ∷ bs) e = (ground arith, all_bytes-IsBytes bs (ground arith))

pub get_elem?-in :
    (buf : List ℕ) (i : ℕ)
    → IsBytes buf
    → i < length buf
    → (b : ℕ) × (get_elem? buf i ≡ some b) × (b < 256)
get_elem?-in [] i bytes h = elim h [ ]
get_elem?-in (b ∷ buf) zero bytes h = (b, refl, bytes.0)
get_elem?-in (b ∷ buf) (suc i) bytes h = get_elem?-in buf i bytes.1 (omega arith)

-- A round of the loop that ends it, and one that takes an attribute.
pub parse_stop :
    (fuel : ℕ) (buf : List ℕ) (maxtype pos rem : ℕ) (tb : Table)
    → nla_ok buf pos rem ≡ some false
    → parse_loop (suc fuel) buf maxtype pos rem tb ≡ some tb
unfolding parse_loop
parse_stop fuel buf maxtype pos rem tb e = rw e refl

pub parse_step :
    (fuel : ℕ) (buf : List ℕ) (maxtype pos rem : ℕ) (tb : Table) (n type : ℕ)
    → nla_ok buf pos rem ≡ some true
    → nla_type buf pos ≡ some type
    → le16 buf pos ≡ some n
    → parse_loop (suc fuel) buf maxtype pos rem tb ≡ (
        if ltb rem (nla_align n)
        then some (note maxtype tb type pos)
        else parse_loop fuel buf maxtype
            (pos + nla_align n)
            (rem - nla_align n)
            (note maxtype tb type pos))
unfolding parse_loop
parse_step fuel buf maxtype pos rem tb n type ok e2 e = rw (ok, e2, e) refl

module _ (buf : List ℕ) (bytes : IsBytes buf) where
  pub le16-in : (i : ℕ) → i + 2 ≤ length buf → (w : ℕ) × (le16 buf i ≡ some w) × (w < 2 ^ 16)
  le16-in i h =
      let (lo, e0, b0) = get_elem?-in buf i bytes (omega arith) in
      let (hi, e1, b1) = get_elem?-in buf (i + 1) bytes (omega arith) in
      (lo + 256 * hi, rw (e0, e1) refl, omega arith)

  pub le32-in : (i : ℕ) → i + 4 ≤ length buf → (w : ℕ) × (le32 buf i ≡ some w) × (w < 2 ^ 32)
  le32-in i h =
      let (lo, e0, b0) = le16-in i (omega arith) in
      let (hi, e1, b1) = le16-in (i + 2) (omega arith) in
      (lo + 65536 * hi, rw (e0, e1) refl, omega arith)

  -- An attribute that lies between two offsets, with its header.
  pub record Within (lo hi nla : ℕ) : Type 0 where
    pub size : ℕ
    pub above : lo ≤ nla
    pub read : le16 buf nla ≡ some size
    pub header : 4 ≤ size
    pub word : size < 2 ^ 16
    pub below : nla + size ≤ hi

  abbrev pub AllWithin : ℕ → ℕ → Table → Type 0
  AllWithin lo hi tb = (k nla : ℕ) → tb k ≡ some nla → Within lo hi nla

  note-AllWithin :
      (lo hi maxtype : ℕ) (tb : Table) (type nla : ℕ)
      → AllWithin lo hi tb
      → Within lo hi nla
      → AllWithin lo hi (note maxtype tb type nla)
  note-AllWithin lo hi maxtype tb type nla all w k q e =
      elim (Bool-cases (ltb 0 type && leb type maxtype)) [
        | inr skipped ↦ all k q (ground arith)
        | inl noted ↦ elim (Bool-cases (k == type)) [
          | inl hit ↦ let same : nla ≡ q = ground arith in rw (← same) w
          | inr miss ↦ all k q (ground arith)
        ]
      ]

  parse_loop-AllWithin :
      (fuel lo hi maxtype pos rem : ℕ) (tb : Table)
      → rem < fuel
      → lo ≤ pos
      → pos + rem ≡ hi
      → hi ≤ length buf
      → AllWithin lo hi tb
      → (tb' : Table) × (parse_loop fuel buf maxtype pos rem tb ≡ some tb') × AllWithin lo hi tb'
  parse_loop-AllWithin zero lo hi maxtype pos rem tb h a s l all = elim h [ ]
  parse_loop-AllWithin (suc fuel) lo hi maxtype pos rem tb h a s l all =
      elim (Bool-cases (ltb rem 4)) [
        | inl short ↦ (tb, parse_stop fuel buf maxtype pos rem tb (ground arith), all)
        | inr long ↦
            let (n, e, w) = le16-in pos (ground arith) in
            elim (Bool-cases (leb 4 n && leb n rem)) [
              | inr bad ↦ (tb, parse_stop fuel buf maxtype pos rem tb (rw (long, e, bad) refl), all)
              | inl good ↦
                  let (t, e2, w2) = le16-in (pos + 2) (ground arith) in
                  let here : Within lo hi pos = record {
                    size = n;
                    above = a;
                    read = e;
                    header = ground arith;
                    word = w;
                    below = ground arith;
                  } in
                  let tb' : Table = note maxtype tb (t % 2 ^ 14) pos in
                  let all' = note-AllWithin lo hi maxtype tb (t % 2 ^ 14) pos all here in
                  let round =
                    parse_step fuel buf maxtype pos rem tb n (t % 2 ^ 14) (rw (long, e, good) refl)
                      (rw e2 refl) e in
                  elim (Bool-cases (ltb rem (nla_align n))) [
                    | inl last ↦ (tb', round ∙ rw last refl, all')
                    | inr more ↦
                        let (tb2, e3, all2) =
                          parse_loop-AllWithin fuel lo hi maxtype (pos + nla_align n)
                            (rem - nla_align n) tb' (ground arith) (omega arith) (ground arith) l
                            all' in
                        (tb2, round ∙ rw more e3, all2)
                  ]
            ]
      ]

  -- Whatever the bytes are, the parser reads nothing outside of the `len` bytes from `head` on, if the
  -- buffer has as many; and each attribute that it notes lies within them, header and payload.
  pub parse-AllWithin :
      (maxtype head len : ℕ)
      → head + len ≤ length buf
      → (tb : Table) × (parse buf maxtype head len ≡ some tb) × AllWithin head (head + len) tb
  unfolding parse
  parse-AllWithin maxtype head len fits =
      parse_loop-AllWithin (suc len) head (head + len) maxtype head len no_attrs (omega arith)
        (omega arith) refl fits (λ k nla e. cc)

  module _ (lo hi : ℕ) (inside : hi ≤ length buf) where
    pub nla_len-Within : (nla : ℕ) (w : Within lo hi nla) → nla_len buf nla ≡ some (w.size - 4)
    nla_len-Within nla w =
        let less : (w.size + 2 ^ 16 - 4) % 2 ^ 16 ≡ w.size - 4 = omega (arith, w.header, w.word) in
        rw (w.read, less) refl

    pub parse_nested-AllWithin :
        (maxtype nla : ℕ)
        → Within lo hi nla
        → (tb : Table) × (parse_nested buf maxtype nla ≡ some tb) × AllWithin lo hi tb
    unfolding parse_nested
    parse_nested-AllWithin maxtype nla w =
        let (tb, e, all) =
          parse-AllWithin maxtype (nla_data nla) (w.size - 4) (omega (arith, w.below, w.header)) in
        (
          tb,
          rw (nla_len-Within nla w) e,
          λ k q p.
              let v = all k q p in
              record {
                size = v.size;
                above = omega (arith, v.above, w.above);
                read = v.read;
                header = v.header;
                word = v.word;
                below = omega (arith, v.below, w.below, w.header);
              },
        )

    pub get_s32-Within :
        (tb : Table) (k : ℕ) (out : ℤ)
        → AllWithin lo hi tb
        → (v : ℤ) × (get_s32 buf (tb k) out ≡ some v)
    get_s32-Within tb k out all = elim (Option-cases (tb k)) [
      | inl missing ↦ (out, rw missing refl)
      | inr (nla, e) ↦
          let w = all k nla e in
          elim (Bool-cases (ltb (w.size - 4) 4)) [
            | inl short ↦ (out, rw (e, nla_len-Within nla w, short) refl)
            | inr long ↦
                let (v, r, b) = le32-in (nla + 4) (ground (arith, w.below, w.header)) in
                (signed32 v, rw (e, nla_len-Within nla w, long, r) refl)
          ]
    ]
