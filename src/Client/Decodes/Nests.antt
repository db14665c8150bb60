-- ===== src/Client/Decodes/Nests.antt =====
-- The nests of a message of an event, as rkx_jni.cpp finds them.
use re_kernel_x.Base.{
  ℕ, ◌+◌, ◌^◌, ◌≤◌, ◌<◌, ◌≡◌, ◌≢◌, refl, Bool, true, false, List, [], ◌∷◌, none, some, arith,
  length, length-append, ◌==◌,
}
use mathlib.Core.Path.{subst}
use re_kernel_x.Nla.{Table, parse_nested}
use re_kernel_x.Nla.Wire.{Attr, Fits, kind, attr_of, wire, wire_of, length-wire_of, At}
use re_kernel_x.Nla.Parses.{Points, Holds, parse_nested-wire}
use re_kernel_x.Client.Events.{attr_max}
use re_kernel_x.Client.Decodes.{nest}
use re_kernel_x.Client.Decodes.Reads.{Points-some, Points-none}

kind-nest :
    (flagged : Bool) (type : ℕ) (attrs : List Attr)
    → type < 2 ^ 14
    → kind (nest flagged type attrs) ≡ type
kind-nest true type attrs small = omega arith
kind-nest false type attrs small = omega arith

pub nest-Fits :
    (flagged : Bool) (type : ℕ) (attrs : List Attr)
    → type < 2 ^ 14
    → length (wire attrs) + 4 < 2 ^ 16
    → Fits (nest flagged type attrs)
nest-Fits true type attrs small short = (short, omega arith)
nest-Fits false type attrs small short = (short, omega arith)

-- A nest that stands alone is found under its type, and under no other.
pub found :
    (buf : List ℕ) (tb : Table) (flagged : Bool) (type : ℕ) (attrs : List Attr)
    → Holds buf attr_max tb (λ k. attr_of k (nest flagged type attrs ∷ []))
    → 0 < type
    → type ≤ attr_max
    → (nla : ℕ) × (tb type ≡ some nla) × At buf nla (nest flagged type attrs)
found buf tb flagged type attrs holds low high =
    let a = nest flagged type attrs in
    let same : type == kind a ≡ true = ground (arith, kind-nest flagged type attrs (omega arith)) in
    let there : attr_of type (a ∷ []) ≡ some a = rw same refl in
    Points-some buf (tb type) a (subst (Points buf (tb type)) there (holds type low high))

missed :
    (buf : List ℕ) (tb : Table) (flagged : Bool) (type : ℕ) (attrs : List Attr) (k : ℕ)
    → Holds buf attr_max tb (λ k. attr_of k (nest flagged type attrs ∷ []))
    → type ≤ attr_max
    → 0 < k
    → k ≤ attr_max
    → k ≢ type
    → tb k ≡ none
missed buf tb flagged type attrs k holds small low high differs =
    let a = nest flagged type attrs in
    let other_kind : k == kind a ≡ false =
      ground (arith, kind-nest flagged type attrs (omega arith)) in
    let nowhere : attr_of k (a ∷ []) ≡ none = rw other_kind refl in
    Points-none buf (tb k) (subst (Points buf (tb k)) nowhere (holds k low high))

-- The nest of an event, with that of its kind in it.
abbrev pub outer : Bool → ℕ → List Attr → Attr
outer flagged type attrs = nest flagged 1 (nest flagged type attrs ∷ [])

module _ (buf : List ℕ) (flagged : Bool) (type : ℕ) (attrs : List Attr) (low : 0 < type)
    (high : type ≤ 49) (short : length (wire attrs) < 1000) where
  abbrev pub inner : Attr
  inner = nest flagged type attrs

  pub inner-Fits : Fits inner
  inner-Fits = nest-Fits flagged type attrs (omega arith) (omega arith)

  abbrev pub inner_size : ℕ
  inner_size = length (wire (inner ∷ []))

  pub inner_size_lem : inner_size < 1010
  inner_size_lem = omega (arith, length-append (wire_of inner) [], length-wire_of inner)

  outer-Fits : Fits (outer flagged type attrs)
  outer-Fits = nest-Fits flagged 1 (inner ∷ []) (omega arith) (omega (arith, inner_size_lem))

  -- The table of the event's nest: the kind's nest stands in it, and nothing else.
  pub opened_nest :
      (evt : ℕ)
      → At buf evt (outer flagged type attrs)
      → (tb : Table) × (parse_nested buf attr_max evt ≡ some tb)
        × ((nla : ℕ) × (tb type ≡ some nla) × At buf nla inner)
        × ((k : ℕ) → 0 < k → k ≤ attr_max → k ≢ type → tb k ≡ none)
  opened_nest evt at =
      let (tb, e, holds) =
        parse_nested-wire (inner ∷ []) buf attr_max evt (outer flagged type attrs) at outer-Fits
          refl (inner-Fits, tt) in
      (
        tb,
        e,
        found buf tb flagged type attrs holds low high,
        λ k lowk highk differs. missed buf tb flagged type attrs k holds high lowk highk differs,
      )
