-- ===== src/Client/Commands/Chains.antt =====
-- A chain of puts appends the attributes in their order, and stops where there is no more room.
use re_kernel_x.Base.{
  ℕ, ◌+◌, ◌^◌, ◌≤◌, ◌<◌, ◌≡◌, refl, sym, ap, ◌∙◌, ◌⊎◌, inl, inr, true, false, List, [], ◌∷◌, ◌++◌,
  some, arith, length, length-append,
}
use mathlib.Core.Path.{subst}
use mathlib.Core.List.{append_assoc, append-nil}
use re_kernel_x.Nla.{nla_align}
use re_kernel_x.Nla.Wire.{Attr, attr, wire_of, wire, length-wire_of}
use re_kernel_x.Nla.Builder.{Builder, put}
use re_kernel_x.Nla.Builder.Puts.{Built, put_outcome}
use re_kernel_x.Client.Commands.{Put, chain}

-- What is left after puts of `bytes`: all of them are there, or there was no room for them and the
-- builder holds some of them.
abbrev pub Result : Put → Builder → List ℕ → List ℕ → Type 0
Result f b whole bytes =
    (b' : Builder) × (((f b ≡ some (true, b'))
        × Built b' (whole ++ bytes)
        × (b'.cap ≡ b.cap)
        × (b.len + length bytes ≤ b.cap))
      ⊎ ((tail : List ℕ) × (f b ≡ some (false, b'))
          × Built b' (whole ++ tail)
          × (b'.cap ≡ b.cap)
          × (b.cap < b.len + length bytes)))

abbrev pub Appends : Put → Attr → Type 0
Appends f a = (b : Builder) (whole : List ℕ) → Built b whole → Result f b whole (wire_of a)

pub put-Appends :
    (type : ℕ) (data_bytes : List ℕ) (n : ℕ)
    → length data_bytes ≡ n
    → n + 7 < 2 ^ 16
    → Appends (λ b. put b type data_bytes n) (attr type data_bytes)
put-Appends type data_bytes n e short b whole built =
    let size : length (wire_of (attr type data_bytes)) ≡ nla_align (n + 4) =
      length-wire_of (attr type data_bytes) ∙ ap (λ k. nla_align (k + 4)) e in
    elim (put_outcome b whole type data_bytes n built e short) [
      | inl (full, r) ↦
          (b, inr ([], r, subst (Built b) (sym (append-nil whole)) built, refl, omega arith))
      | inr (room, b', r, built', cap) ↦ (b', inl (r, built', cap, omega arith))
    ]

abbrev pub Chains : List Put → List Attr → Type 0
Chains [] [] = Unit {0}
Chains (f ∷ fs) (a ∷ as') = Appends f a × Chains fs as'
Chains [] (a ∷ as') = ⊥
Chains (f ∷ fs) [] = ⊥

-- One put, and the chain behind it.
then_chain :
    (f : Put) (fs : List Put) (a : Attr) (as' : List Attr) (b : Builder) (whole : List ℕ)
    → Built b whole
    → Result f b whole (wire_of a)
    → ((b1 : Builder)
        → Built b1 (whole ++ wire_of a)
        → Result (chain fs) b1 (whole ++ wire_of a) (wire as'))
    → Result (chain (f ∷ fs)) b whole (wire (a ∷ as'))
unfolding chain
then_chain f fs a as' b whole built (b1, r1) later = elim r1 [
  | inr (tail, e, built1, cap, full) ↦ (
    b1,
    inr (tail, rw e refl, built1, cap, omega (arith, full, length-append (wire_of a) (wire as'))),
  )
  | inl (e, built1, cap, room) ↦
      let (b2, r2) = later b1 built1 in
      let after : b1.len ≡ b.len + length (wire_of a) =
        omega (arith, built1.ends, built.ends, length-append whole (wire_of a)) in
      elim r2 [
        | inl (e2, built2, cap2, room2) ↦ (
          b2,
          inl (
            rw e e2,
            subst (Built b2) (append_assoc whole (wire_of a) (wire as')) built2,
            cap2 ∙ cap,
            omega (arith, length-append (wire_of a) (wire as'), room2, after, cap),
          ),
        )
        | inr (tail, e2, built2, cap2, full) ↦ (
          b2,
          inr (
            wire_of a ++ tail,
            rw e e2,
            subst (Built b2) (append_assoc whole (wire_of a) tail) built2,
            cap2 ∙ cap,
            omega (arith, length-append (wire_of a) (wire as'), full, after, cap),
          ),
        )
      ]
]

pub chain-Built :
    (fs : List Put) (attrs : List Attr)
    → Chains fs attrs
    → (b : Builder) (whole : List ℕ) → Built b whole
    → Result (chain fs) b whole (wire attrs)
unfolding chain
chain-Built [] [] chains b whole built =
    let room : b.len + 0 ≤ b.cap =
      omega
        (arith, built.ends, built.sized, ap length built.split, length-append whole built.rest) in
    (b, inl (refl, subst (Built b) (sym (append-nil whole)) built, refl, room))
chain-Built [] (a ∷ as') chains b whole built = absurd chains
chain-Built (f ∷ fs) [] chains b whole built = absurd chains
chain-Built (f ∷ fs) (a ∷ as') chains b whole built =
    then_chain f fs a as' b whole built (chains.0 b whole built)
      (λ b1 built1. chain-Built fs as' chains.1 b1 (whole ++ wire_of a) built1)
