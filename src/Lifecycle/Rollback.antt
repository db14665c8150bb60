-- ===== src/Lifecycle/Rollback.antt =====
-- The network namespaces of rkx_netfilter.c: what is registered when one of them refuses, and what
-- the rollback and the unregistration tell the kernel.
use re_kernel_x.Base.{
  ℕ, zero, suc, ◌+◌, ◌-◌, ◌<◌, ◌≡◌, refl, ◌⊎◌, inl, inr, Bool, true, false, List, ◌++◌, arith, ℤ,
  pos, eq_ℤ, rkx_error, replicate, Bool-cases,
}
use re_kernel_x.Lifecycle.{
  NetHooks, register_nets, unregister_nets, register_netfilter, unregister_netfilter,
}

-- n namespaces with the hooks, then k without.
abbrev pub mixed : ℕ → ℕ → List Bool
mixed n k = replicate n true ++ replicate k false

pub unregister_nets-mixed :
    (n k m strays total : ℕ)
    → m ≡ n + k
    → total ≡ strays + k
    → unregister_nets (mixed n k) strays ≡ (replicate m false, total)
unfolding unregister_nets
unregister_nets-mixed zero zero zero strays total e t =
    let same : total ≡ strays = omega arith in rw same
unregister_nets-mixed zero zero (suc m) strays total e t = absurd (omega arith)
unregister_nets-mixed zero (suc k) zero strays total e t = absurd (omega arith)
unregister_nets-mixed zero (suc k) (suc m) strays total e t =
    rw (unregister_nets-mixed zero k m (suc strays) total (omega arith) (omega arith))
unregister_nets-mixed (suc n) k zero strays total e t = absurd (omega arith)
unregister_nets-mixed (suc n) k (suc m) strays total e t =
    rw (unregister_nets-mixed n k m strays total (omega arith) t)

-- The namespace at `j` is the first that refuses.
pub record FirstRefusal (rcs : ℕ → ℤ) (n j : ℕ) : Type 0 where
  pub within : j < n
  pub refused : eq_ℤ (rcs j) (pos 0) ≡ false
  pub accepted : (i : ℕ) → i < j → eq_ℤ (rcs i) (pos 0) ≡ true

-- All of n namespaces accept.
abbrev pub Accepted : (ℕ → ℤ) → ℕ → Type 0
Accepted rcs n = (i : ℕ) → i < n → eq_ℤ (rcs i) (pos 0) ≡ true

Accepted-suc :
    (n : ℕ) (rcs : ℕ → ℤ)
    → eq_ℤ (rcs 0) (pos 0) ≡ true
    → Accepted (λ i. rcs (suc i)) n
    → Accepted rcs (suc n)
Accepted-suc n rcs first rest zero h = first
Accepted-suc n rcs first rest (suc i) h = rest i (omega arith)

pub register_nets_outcome :
    (n : ℕ) (rcs : ℕ → ℤ)
    → let r = register_nets rcs (replicate n false) in
      (Accepted rcs n × (r ≡ (pos 0, replicate n true)))
      ⊎ ((j : ℕ) × FirstRefusal rcs n j × (r ≡ (rcs j, mixed j (n - j))))
unfolding register_nets
register_nets_outcome zero rcs = inl (λ i h. elim h [ ], refl)
register_nets_outcome (suc n) rcs = elim (Bool-cases (eq_ℤ (rcs 0) (pos 0))) [
  | inr no_hook ↦
      let whole : suc n - 0 ≡ suc n = omega arith in
      inr (
        0,
        record { within = omega arith; refused = no_hook; accepted = λ i h. elim h [ ] },
        rw (no_hook, whole) refl,
      )
  | inl hook ↦ elim (register_nets_outcome n (λ i. rcs (suc i))) [
    | inl (rest, e) ↦ inl (Accepted-suc n rcs hook rest, rw (hook, e) refl)
    | inr (j, first, e) ↦
        let left : suc n - suc j ≡ n - j = omega arith in
        inr (
          suc j,
          record {
            within = omega (arith, first.within);
            refused = first.refused;
            accepted = Accepted-suc j rcs hook first.accepted;
          },
          rw (hook, e, left) refl,
        )
  ]
]

abbrev pub net_hooks : Bool → List Bool → ℕ → NetHooks
net_hooks hooked nets strays = record { hooked = hooked; nets = nets; strays = strays }

-- On n namespaces without the hooks: if every one accepts them, all of them have the hooks. If
-- one refuses, no namespace has them in the end, but the rollback has told the kernel to
-- unregister hooks that were never registered, once for each namespace from the first refusal on.
pub register_netfilter_outcome :
    (n : ℕ) (rcs : ℕ → ℤ)
    → let r = register_netfilter rcs (net_hooks false (replicate n false) 0) in
      (Accepted rcs n × (r ≡ (pos 0, net_hooks true (replicate n true) 0)))
      ⊎ ((j : ℕ) × FirstRefusal rcs n j
          × (r ≡ (rkx_error, net_hooks false (replicate n false) (n - j))))
unfolding register_netfilter
register_netfilter_outcome n rcs = elim (register_nets_outcome n rcs) [
  | inl (rest, e) ↦ inl (rest, rw e refl)
  | inr (j, first, e) ↦ inr (
    j,
    first,
    rw
        (
          e,
          first.refused,
          unregister_nets-mixed j (n - j) n 0 (n - j) (omega (arith, first.within)) (omega arith),
        )
        refl,
  )
]

-- Unregistering while `new` namespaces were created since the hooks were registered: none has the
-- hooks in the end, and for each of the new ones the kernel was told to unregister what it did not
-- have.
pub unregister_netfilter_lem :
    (n new : ℕ)
    → unregister_netfilter (net_hooks true (mixed n new) 0)
      ≡ net_hooks false (replicate (n + new) false) new
unfolding unregister_netfilter
unregister_netfilter_lem n new = rw (unregister_nets-mixed n new (n + new) 0 new refl (omega arith))
