-- ===== src/Nla/Parses.antt =====
-- The parser of rkx_nla.h reads the netlink format: of the attributes that were put into a message it
-- notes, for each type, the last one.
use re_kernel_x.Base.{
  ℕ, zero, suc, ◌+◌, ◌-◌, ◌≤◌, ◌<◌, ◌≡◌, refl, sym, ap, ◌∙◌, true, false, ◌&&◌, List, [], ◌∷◌, ◌++◌,
  Option, none, some, arith, if◌then◌else◌, ltb, leb, length, length-append, All, or_else, ◌==◌,
  Bool-cases, inl, inr,
}
use mathlib.Core.Path.{subst}
use mathlib.Core.List.{append_assoc}
use re_kernel_x.Nla.{nla_align, nla_data, Table, no_attrs, note, parse_loop, parse, parse_nested}
use re_kernel_x.Nla.Bounds.{parse_stop, parse_step}
use re_kernel_x.Nla.Wire.{
  Attr, Fits, kind, attr_len, padding, header, wire_of, wire, length-wire_of, attr_of, At, le16-At,
  nla_type-At, nla_len-At, payload_at,
}

-- What the parser noted under a type is where the attribute stands.
abbrev pub Points : List ℕ → Option ℕ → Option Attr → Type 0
Points buf none none = Unit {0}
Points buf (some nla) (some a) = At buf nla a
Points buf none (some a) = ⊥
Points buf (some nla) none = ⊥

-- The table holds, for each type up to maxtype, the attribute that `spec` gives.
abbrev pub Holds : List ℕ → ℕ → Table → (ℕ → Option Attr) → Type 0
Holds buf maxtype tb spec = (k : ℕ) → 0 < k → k ≤ maxtype → Points buf (tb k) (spec k)

note-Holds :
    (buf : List ℕ) (maxtype : ℕ) (tb : Table) (spec : ℕ → Option Attr) (nla : ℕ) (a : Attr)
    → At buf nla a
    → Holds buf maxtype tb spec
    → Holds buf maxtype
        (note maxtype tb (kind a) nla)
        (λ k. or_else (if k == kind a then some a else none) (spec k))
note-Holds buf maxtype tb spec nla a at holds k low high = elim (Bool-cases (k == kind a)) [
  | inl hit ↦
      let noted : ltb 0 (kind a) && leb (kind a) maxtype ≡ true = ground arith in
      rw (noted, hit) at_here
  | inr miss ↦ elim (Bool-cases (ltb 0 (kind a) && leb (kind a) maxtype)) [
    | inl noted ↦ rw (noted, miss) (holds k low high)
    | inr skipped ↦ rw (skipped, miss) (holds k low high)
  ]
]
  where
    at_here : At buf nla a
    at_here = at

or_else_assoc : (x y z : Option Attr) → or_else (or_else x y) z ≡ or_else x (or_else y z)
or_else_assoc none y z = refl
or_else_assoc (some a) y z = refl

parse_loop-wire :
    (attrs : List Attr) (fuel : ℕ) (buf : List ℕ) (maxtype pos rem : ℕ) (tb : Table)
    (spec : ℕ → Option Attr) (before after : List ℕ)
    → buf ≡ before ++ (wire attrs ++ after)
    → length before ≡ pos
    → length (wire attrs) ≡ rem
    → rem < fuel
    → All Fits attrs
    → Holds buf maxtype tb spec
    → (tb' : Table) × (parse_loop fuel buf maxtype pos rem tb ≡ some tb')
      × Holds buf maxtype tb' (λ k. or_else (attr_of k attrs) (spec k))
parse_loop-wire attrs zero buf maxtype pos rem tb spec before after e l r f fits holds = elim f [ ]
parse_loop-wire [] (suc fuel) buf maxtype pos rem tb spec before after e l r f fits holds =
    (tb, parse_stop fuel buf maxtype pos rem tb (ground arith), holds)
parse_loop-wire (a ∷ as') (suc fuel) buf maxtype pos rem tb spec before after e l r f fits holds =
    let at : At buf pos a = record {
      before = before;
      after = wire as' ++ after;
      split = e ∙ ap (λ t. before ++ t) (append_assoc (wire_of a) (wire as') after);
      here = l;
    } in
    let whole : nla_align (attr_len a) + length (wire as') ≡ rem =
      omega (arith, length-append (wire_of a) (wire as'), length-wire_of a) in
    let long : ltb rem 4 ≡ false = ground arith in
    let good : leb 4 (attr_len a) && leb (attr_len a) rem ≡ true = ground arith in
    let go : ltb rem (nla_align (attr_len a)) ≡ false = ground arith in
    let n : ℕ = nla_align (attr_len a) in
    let (tb', e2, holds2) =
      parse_loop-wire as' fuel buf maxtype (pos + n) (rem - n) (note maxtype tb (kind a) pos)
        (λ k. or_else (if k == kind a then some a else none) (spec k)) (before ++ wire_of a) after
        (at.split ∙ sym (append_assoc before (wire_of a) (wire as' ++ after)))
        (omega (arith, length-append before (wire_of a), length-wire_of a)) (omega arith)
        (omega arith) fits.1 (note-Holds buf maxtype tb spec pos a at holds) in
    (
      tb',
      parse_step fuel buf maxtype pos rem tb (attr_len a) (kind a)
            (rw (long, le16-At buf pos a at fits.0, good) refl) (nla_type-At buf pos a at fits.0)
            (le16-At buf pos a at fits.0)
          ∙ rw go e2,
      λ k low high.
          subst (Points buf (tb' k))
            (sym (or_else_assoc (attr_of k as') (if k == kind a then some a else none) (spec k)))
            (holds2 k low high),
    )

-- Parsing the attributes that stand in a message, each of which fits its fields, notes, for each type
-- up to maxtype, the last attribute of that type, at its place; whatever stands before and behind them.
pub parse-wire :
    (attrs : List Attr) (buf : List ℕ) (maxtype head len : ℕ) (before after : List ℕ)
    → buf ≡ before ++ (wire attrs ++ after)
    → length before ≡ head
    → length (wire attrs) ≡ len
    → All Fits attrs
    → (tb : Table) × (parse buf maxtype head len ≡ some tb)
      × Holds buf maxtype tb (λ k. attr_of k attrs)
unfolding parse
parse-wire attrs buf maxtype head len before after e l r fits =
    let (tb, p, holds) =
      parse_loop-wire attrs (suc len) buf maxtype head len no_attrs (λ k. none) before after e l r
        (omega arith) fits (λ k low high. tt) in
    (
      tb,
      p,
      λ k low high. subst (Points buf (tb k)) (or_else_none (attr_of k attrs)) (holds k low high),
    )
  where
    or_else_none : (x : Option Attr) → or_else x none ≡ x
    or_else_none none = refl
    or_else_none (some a) = refl

-- The attributes nested in an attribute.
pub parse_nested-wire :
    (attrs : List Attr) (buf : List ℕ) (maxtype nla : ℕ) (a : Attr)
    → At buf nla a
    → Fits a
    → a.payload ≡ wire attrs
    → All Fits attrs
    → (tb : Table) × (parse_nested buf maxtype nla ≡ some tb)
      × Holds buf maxtype tb (λ k. attr_of k attrs)
unfolding parse_nested
parse_nested-wire attrs buf maxtype nla a at fits inner all =
    let (split, here) = payload_at buf nla a at fits in
    let (tb, p, holds) =
      parse-wire attrs buf maxtype (nla_data nla) (length a.payload) (at.before ++ header a)
        (padding a ++ at.after)
        (split ∙ ap (λ t. (at.before ++ header a) ++ (t ++ (padding a ++ at.after))) inner) here
        (ap length (sym inner)) all in
    (tb, rw (nla_len-At buf nla a at fits) p, holds)
