-- ===== src/Lifecycle/Outcome.antt =====
-- What rkx_init and rkx_exit leave behind, on every path.
use re_kernel_x.Base.{
  replicate, ℕ, Bool, ◌+◌, ◌-◌, ◌≡◌, refl, ap, ◌⊎◌, inl, inr, true, false, arith, ℤ, pos, eq_ℤ,
  rkx_error, Bool-cases,
}
use re_kernel_x.Hashtable.{Table}
use re_kernel_x.FreeAsync.{State as Rules, Hash}
use re_kernel_x.FreeAsync.{init as init_free_async}
use re_kernel_x.FreeAsync.Rules.{IsValid as RulesValid}
use re_kernel_x.FreeAsync.Contract.{destroy-frees_entries}
use re_kernel_x.NetUid.Laws.{IsValid as UidsValid, destroy-frees_nodes}
use re_kernel_x.NetUid.{UidInfo, init as init_net_uid}
use re_kernel_x.Lifecycle.{
  register_binder, register_netfilter, Hook, Module, Answers, detach, register_genl,
  unregister_binder, unregister_binder_kp, unregister_netfilter, init, exit,
}
use re_kernel_x.Lifecycle.Rollback.{
  net_hooks, FirstRefusal, Accepted, register_netfilter_outcome, unregister_netfilter_lem,
}
use re_kernel_x.Lifecycle.Parts.{
  idle, held, binder_hooks, at_rest, running, register_binder_outcome, destroyed_rules,
  destroyed_uids, detach-idle, detach-held, register_no, register_ok, kp_cases, mixed_all,
}

-- The error path with the first registrations made.
exit_partial :
    (n strays : ℕ) (busy : Bool) (g b s : Hook)
    → detach g ≡ idle
    → detach b ≡ idle
    → detach s ≡ idle
    → exit (record (at_rest n strays init_free_async init_net_uid) {
      in_flight = busy;
      genl = g;
      binder = binder_hooks b;
      signal = s;
    })
      ≡ at_rest n strays init_free_async init_net_uid
unfolding exit unregister_binder unregister_binder_kp unregister_netfilter
exit_partial n strays busy g b s eg eb es =
    rw (eg, eb, es, detach-idle, destroyed_rules, destroyed_uids) refl

-- Every registration but those of the probe succeeds.
pub record Accepts (a : Answers) (n : ℕ) : Type 0 where
  pub genl : eq_ℤ a.genl (pos 0) ≡ true
  pub alloc_buf : eq_ℤ a.alloc_buf (pos 0) ≡ true
  pub reply : eq_ℤ a.reply (pos 0) ≡ true
  pub trans : eq_ℤ a.trans (pos 0) ≡ true
  pub signal : eq_ℤ a.signal (pos 0) ≡ true
  pub nets : Accepted a.nets n

abbrev fresh : ℕ → ℕ → Module
fresh n strays = at_rest n strays init_free_async init_net_uid

binder_refused :
    (a : Answers) (n : ℕ) (rc : ℤ)
    → eq_ℤ rc (pos 0) ≡ false
    → (rc ≡ a.alloc_buf) ⊎ (rc ≡ a.reply) ⊎ (rc ≡ a.trans)
    → Accepts a n
    → ⊥
binder_refused a n rc bad (inl e) acc = ground (arith, e, acc.alloc_buf)
binder_refused a n rc bad (inr (inl e)) acc = ground (arith, e, acc.reply)
binder_refused a n rc bad (inr (inr e)) acc = ground (arith, e, acc.trans)

module _ (a : Answers) (n : ℕ) (rules : Rules) (uids : Table UidInfo) where
  -- What rkx_init may return, and what it then leaves.
  abbrev pub Started : ℤ × Module → Type 0
  Started r =
      (Accepts a n
        × ((kp : Hook) × ((kp ≡ idle) ⊎ (kp ≡ held))
            × (r ≡ (pos 0, running n 0 kp init_free_async init_net_uid))))
      ⊎ ((Accepts a n → ⊥)
          × ((strays : ℕ) × ((strays ≡ 0) ⊎ ((j : ℕ) × FirstRefusal a.nets n j × (strays ≡ n - j)))
              × (r ≡ (rkx_error, fresh n strays))))

  abbrev start : ℤ × Module
  start = init a (at_rest n 0 rules uids)

  -- A registration is refused, and nothing strays.
  refused : (Accepts a n → ⊥) → start ≡ (rkx_error, fresh n 0) → Started start
  refused none_accepts e = inr (none_accepts, (0, inl refl, e))

  abbrev BindersOk : Type 0
  BindersOk =
      (eq_ℤ a.alloc_buf (pos 0) ≡ true)
      × (eq_ℤ a.reply (pos 0) ≡ true)
      × (eq_ℤ a.trans (pos 0) ≡ true)
      × (register_binder a.alloc_buf a.reply a.trans (binder_hooks idle)
          ≡ (pos 0, binder_hooks held))

  -- Everything but the probe is accepted.
  accepted :
      (ok1 : eq_ℤ a.genl (pos 0) ≡ true)
      → BindersOk
      → (ok5 : eq_ℤ a.signal (pos 0) ≡ true) → Accepted a.nets n
      → register_netfilter a.nets (net_hooks false (replicate n false) 0)
        ≡ (pos 0, net_hooks true (replicate n true) 0)
      → Started start
  unfolding init register_genl
  accepted ok1 (ok2, ok3, ok4, e2) ok5 all e6 =
      let (kp, which, e7) = kp_cases a.has_wq a.kallsyms a.version a.symbols a.transaction in
      inl (
        record { genl = ok1; alloc_buf = ok2; reply = ok3; trans = ok4; signal = ok5; nets = all },
        (
          kp,
          which,
          rw (ok1, e2, register_ok a.signal idle ok5, ok5, e6, e7)
              (ap
                (λ l. (
                  pos 0,
                  record (running n 0 kp init_free_async init_net_uid) {
                    netfilter = net_hooks true l 0;
                  },
                ))
                (mixed_all n)),
        ),
      )

  -- From the registration of the hooks on packets on.
  nets_stage :
      (ok1 : eq_ℤ a.genl (pos 0) ≡ true)
      → BindersOk
      → (ok5 : eq_ℤ a.signal (pos 0) ≡ true) → Started start
  unfolding init register_genl
  nets_stage ok1 oks ok5 = elim (register_netfilter_outcome n a.nets) [
    | inl (all, e6) ↦ accepted ok1 oks ok5 all e6
    | inr (j, first, e6) ↦ inr (
      λ acc. absurd (ground (arith, acc.nets j first.within, first.refused)),
      (
        n - j,
        inr (j, first, refl),
        rw (ok1, oks.3, register_ok a.signal idle ok5, ok5, e6)
            (ap (λ m. (rkx_error, m))
              (exit_partial n (n - j) true held held held detach-held detach-held detach-held)),
      ),
    )
  ]

  -- From the registration of the hook on signals on.
  signal_stage : (ok1 : eq_ℤ a.genl (pos 0) ≡ true) → BindersOk → Started start
  unfolding init register_genl
  signal_stage ok1 oks = elim (Bool-cases (eq_ℤ a.signal (pos 0))) [
    | inl ok5 ↦ nets_stage ok1 oks ok5
    | inr no5 ↦
        refused (λ acc. absurd (ground (arith, acc.signal)))
          (rw (ok1, oks.3, register_no a.signal idle no5, no5)
            (ap (λ m. (rkx_error, m))
              (exit_partial n 0 true held held idle detach-held detach-held detach-idle)))
  ]

  -- On a kernel with n namespaces and nothing registered, rkx_init returns RKX_SUCCESS exactly if
  -- genl, the three tracepoints of binder, the one of signal and every namespace accept; then all
  -- of them are registered, with the flags set, and the probe of binder_proc_transaction with its
  -- work queue is registered or is not. On every other path it returns RKX_ERROR and nothing is
  -- left registered, no flag set and no table filled; the kernel was never told to unregister
  -- hooks that it did not have, or n - j times, where the namespace at j is the first that
  -- refused; and the family and the tables went when no hook on a tracepoint was running any more.
  pub init_outcome : Started (init a (at_rest n 0 rules uids))
  unfolding init register_genl
  init_outcome = elim (Bool-cases (eq_ℤ a.genl (pos 0))) [
    | inr no1 ↦
        refused (λ acc. absurd (ground (arith, acc.genl)))
          (rw no1 (
            ap (λ m. (rkx_error, m))
              (exit_partial n 0 false idle idle idle detach-idle detach-idle detach-idle)))
    | inl ok1 ↦ elim (register_binder_outcome a.alloc_buf a.reply a.trans) [
      | inl oks ↦ signal_stage ok1 oks
      | inr (rc, no2, which, e2) ↦ refused (binder_refused a n rc no2 which) (
          rw (ok1, e2, no2)
            (ap (λ m. (rkx_error, m))
              (exit_partial n 0 true held idle idle detach-held detach-idle detach-idle)))
    ]
  ]

-- rkx_exit of a running module with well-formed tables, with or without its probe, leaves nothing
-- registered, no flag set and both tables as a new module has them; the kernel was told to
-- unregister the hooks of a namespace that has none exactly once for each namespace created since
-- the start; and the family and the tables went when no hook on a tracepoint was running any more.
pub exit-running :
    (h : Hash) (rules : Rules) (uids : Table UidInfo)
    → RulesValid h rules
    → UidsValid h.min_hash uids
    → (n new : ℕ) (kp : Hook) → (kp ≡ idle) ⊎ (kp ≡ held)
    → exit (running n new kp rules uids) ≡ at_rest (n + new) new init_free_async init_net_uid
unfolding exit unregister_binder unregister_binder_kp
exit-running h rules uids valid_rules valid_uids n new kp which =
    rw
      (
        unregister_netfilter_lem n new,
        destroy-frees_entries h rules valid_rules,
        destroy-frees_nodes h.min_hash uids valid_uids,
        detach-idle,
        detach-held,
        detached kp which,
      )
      refl
  where
    detached : (kp : Hook) → (kp ≡ idle) ⊎ (kp ≡ held) → detach kp ≡ idle
    detached kp (inl e) = rw e detach-idle
    detached kp (inr e) = rw e detach-held
