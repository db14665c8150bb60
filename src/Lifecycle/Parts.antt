-- ===== src/Lifecycle/Parts.antt =====
-- What each component of the module registers, all of it or nothing.
use re_kernel_x.Base.{
  ℕ, zero, suc, ◌≡◌, refl, ap, ◌⊎◌, inl, inr, Bool, true, false, ◌∷◌, ℤ, pos, eq_ℤ, replicate,
  Bool-cases,
}
use re_kernel_x.Hashtable.{Table, hash_init, free_all, free_chain}
use re_kernel_x.FreeAsync.{State as Rules}
use re_kernel_x.FreeAsync.{init as init_free_async, destroy as destroy_free_async}
use re_kernel_x.NetUid.{UidInfo, init as init_net_uid, destroy as destroy_net_uid}
use re_kernel_x.Lifecycle.{
  Hook, BinderHooks, KpHooks, Symbols, Module, attach, detach, register, register_binder,
  unregister_binder, register_binder_kp, unregister_binder_kp, resolved,
}
use re_kernel_x.Lifecycle.Rollback.{mixed, net_hooks}

-- Not registered, and registered, with the kernel and the flag in agreement.
abbrev pub idle : Hook
idle = record { hooked = false; attached = false; strays = 0 }

abbrev pub held : Hook
held = record { hooked = true; attached = true; strays = 0 }

abbrev pub binder_hooks : Hook → BinderHooks
binder_hooks h = record { alloc_buf = h; reply = h; trans = h }

abbrev pub kp_hooks : Hook → KpHooks
kp_hooks h = record { kallsyms = idle; transaction = h; workqueue = h }

-- The module with nothing registered, in a kernel with n namespaces that was told `strays` times to
-- unregister the hooks of a namespace that has none.
abbrev pub at_rest : ℕ → ℕ → Rules → Table UidInfo → Module
at_rest n strays rules uids = record {
  in_flight = false;
  torn_early = 0;
  genl = idle;
  binder = binder_hooks idle;
  signal = idle;
  netfilter = net_hooks false (replicate n false) strays;
  kp = kp_hooks idle;
  rules = rules;
  uids = uids;
}

-- The running module, `new` namespaces after its start; `kp` is either idle or held.
abbrev pub running : ℕ → ℕ → Hook → Rules → Table UidInfo → Module
running n new kp rules uids = record {
  in_flight = true;
  torn_early = 0;
  genl = held;
  binder = binder_hooks held;
  signal = held;
  netfilter = net_hooks true (mixed n new) 0;
  kp = kp_hooks kp;
  rules = rules;
  uids = uids;
}

-- All three tracepoints of binder are hooked, or none is.
pub register_binder_outcome :
    (rc1 rc2 rc3 : ℤ)
    → let r = register_binder rc1 rc2 rc3 (binder_hooks idle) in
      ((eq_ℤ rc1 (pos 0) ≡ true)
        × (eq_ℤ rc2 (pos 0) ≡ true)
        × (eq_ℤ rc3 (pos 0) ≡ true)
        × (r ≡ (pos 0, binder_hooks held)))
      ⊎ ((rc : ℤ) × (eq_ℤ rc (pos 0) ≡ false)
          × ((rc ≡ rc1) ⊎ (rc ≡ rc2) ⊎ (rc ≡ rc3))
          × (r ≡ (rc, binder_hooks idle)))
unfolding register_binder unregister_binder detach
register_binder_outcome rc1 rc2 rc3 = elim (Bool-cases (eq_ℤ rc1 (pos 0))) [
  | inr no1 ↦ inr (rc1, no1, inl refl, rw no1 refl)
  | inl ok1 ↦ elim (Bool-cases (eq_ℤ rc2 (pos 0))) [
    | inr no2 ↦ inr (rc2, no2, inr (inl refl), rw (ok1, no2) refl)
    | inl ok2 ↦ elim (Bool-cases (eq_ℤ rc3 (pos 0))) [
      | inr no3 ↦ inr (rc3, no3, inr (inr refl), rw (ok1, ok2, no3) refl)
      | inl ok3 ↦ inl (ok1, ok2, ok3, rw (ok1, ok2, ok3) refl)
    ]
  ]
]

-- The probe is registered exactly if the work queue is there, both kprobes are accepted and every
-- symbol is found; on every other path nothing is left of it.
pub register_binder_kp_outcome :
    (has_wq : Bool) (rc1 : ℤ) (version : ℕ) (symbols : Symbols) (rc2 : ℤ)
    → let r = register_binder_kp has_wq rc1 version symbols rc2 (kp_hooks idle) in
      ((has_wq ≡ true)
        × (eq_ℤ rc1 (pos 0) ≡ true)
        × (resolved version symbols ≡ true)
        × (eq_ℤ rc2 (pos 0) ≡ true)
        × (r ≡ kp_hooks held))
      ⊎ (r ≡ kp_hooks idle)
unfolding register_binder_kp unregister_binder_kp detach
register_binder_kp_outcome has_wq rc1 version symbols rc2 = elim (Bool-cases has_wq) [
  | inr no1 ↦ inr (rw no1 refl)
  | inl ok1 ↦ elim (Bool-cases (eq_ℤ rc1 (pos 0))) [
    | inr no2 ↦ inr (rw (ok1, no2) refl)
    | inl ok2 ↦ elim (Bool-cases (resolved version symbols)) [
      | inr no3 ↦ inr (rw (ok1, ok2, no3) refl)
      | inl ok3 ↦ elim (Bool-cases (eq_ℤ rc2 (pos 0))) [
        | inr no4 ↦ inr (rw (ok1, ok2, ok3, no4) refl)
        | inl ok4 ↦ inl (ok1, ok2, ok3, ok4, rw (ok1, ok2, ok3, ok4) refl)
      ]
    ]
  ]
]

pub destroyed_rules : (destroy_free_async init_free_async).0 ≡ init_free_async
unfolding destroy_free_async init_free_async hash_init free_all free_chain
destroyed_rules = refl

pub destroyed_uids : (destroy_net_uid init_net_uid).0 ≡ init_net_uid
unfolding destroy_net_uid init_net_uid hash_init free_all free_chain
destroyed_uids = refl

pub detach-idle : detach idle ≡ idle
unfolding detach
detach-idle = refl

pub detach-held : detach held ≡ idle
unfolding detach
detach-held = refl

pub register_no : (rc : ℤ) (h : Hook) → eq_ℤ rc (pos 0) ≡ false → register rc h ≡ (rc, h)
unfolding register
register_no rc h bad = rw bad refl

pub register_ok : (rc : ℤ) (h : Hook) → eq_ℤ rc (pos 0) ≡ true → register rc h ≡ (rc, attach h)
unfolding register
register_ok rc h ok = rw ok refl

pub kp_cases :
    (has_wq : Bool) (rc1 : ℤ) (version : ℕ) (symbols : Symbols) (rc2 : ℤ)
    → (kp : Hook) × ((kp ≡ idle) ⊎ (kp ≡ held))
      × (register_binder_kp has_wq rc1 version symbols rc2 (kp_hooks idle) ≡ kp_hooks kp)
kp_cases has_wq rc1 version symbols rc2 =
    elim (register_binder_kp_outcome has_wq rc1 version symbols rc2) [
      | inl (_, _, _, _, e) ↦ (held, inr refl, e)
      | inr e ↦ (idle, inl refl, e)
    ]

pub mixed_all : (n : ℕ) → replicate n true ≡ mixed n 0
mixed_all zero = refl
mixed_all (suc n) = ap (λ l. true ∷ l) (mixed_all n)
