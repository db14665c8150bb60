-- ===== src/Genl/Refines.antt =====
-- The handlers of rkx_genl.c answer as the specification says, through the tables of
-- rkx_netuid.c and rkx_free_async.c.
use re_kernel_x.Base.{
  ℕ, ◌↔◌, ◌≡◌, refl, sym, ap, ap₂, ◌∙◌, inl, inr, Bool, true, false, ◌&&◌, ◌||◌, not, List, [], ◌∷◌,
  Option, none, some, ℤ, arith, if◌then◌else◌, ◌==◌, Bool-cases, Option-cases, is_some,
}
use re_kernel_x.FreeAsync.{Hash, add, del}
use re_kernel_x.FreeAsync.{State as Rules}
use re_kernel_x.FreeAsync.Rules.{RuleKey, same_key, rule}
use re_kernel_x.FreeAsync.Rules.{IsValid as RulesValid}
use re_kernel_x.FreeAsync.Invariant.{rule-init}
use re_kernel_x.FreeAsync.Invariant.{init-IsValid as no_rules-IsValid}
use re_kernel_x.FreeAsync.{init as init_free_async}
use re_kernel_x.NetUid.{init as init_net_uid}
use re_kernel_x.NetUid.Laws.{init-IsValid as no_uids-IsValid, monitored-init}
use re_kernel_x.FreeAsync.Contract.{Accepts, IsKey, add_outcome, del_outcome}
use re_kernel_x.NetUid.{monitored}
use re_kernel_x.NetUid.{add as add_net_uid, del as del_net_uid}
use re_kernel_x.NetUid.Laws.{IsValid as UidsValid, monitored-add, monitored-del}
use re_kernel_x.Genl.{
  Attrs, Tables, Command, Request, add_monitor_net, del_monitor, add_rule, del_rule, monitor_net,
  del_monitor_net, add_free_async, del_free_async, doit, serve,
}
use re_kernel_x.Genl.Spec.{
  nothing, Spec, acceptable, is_key, put, set_rule, clear_rule, answer, answers,
}

module _ (h : Hash) where
  -- The tables are well formed and hold what the specification says.
  pub record Holds (t : Tables) (p : Spec) : Type 0 where
    pub uids_valid : UidsValid h.min_hash t.uids
    pub rules_valid : RulesValid h t.rules
    pub uids : (uid : ℕ) → monitored h.min_hash t.uids uid ≡ p.monitors uid
    pub rules : (k : RuleKey) → rule h t.rules k ≡ p.strategy_of k

  -- A handler and the specification give the same answer and end in agreement.
  abbrev pub Agree : ℤ × Tables → ℤ × Spec → Type 0
  Agree r q = (r.0 ≡ q.0) × Holds r.1 q.1

  -- What rkx_init leaves holds nothing.
  pub init-Holds : Holds (record { uids = init_net_uid; rules = init_free_async }) nothing
  init-Holds = record {
    uids_valid = no_uids-IsValid h.min_hash;
    rules_valid = no_rules-IsValid h;
    uids = monitored-init h.min_hash;
    rules = rule-init h;
  }

  acceptable_iff :
      (k : RuleKey) (strategy : ℕ) → (acceptable k strategy ≡ true) ↔ Accepts k strategy
  acceptable_iff k strategy = (
    λ e. record {
      named = ground arith;
      fits = ground arith;
      wild_or_code = ground arith;
      known = ground arith;
    },
    λ a. ground (arith, a.named, a.fits, a.wild_or_code, a.known),
  )

  with_rules :
      (t : Tables) (p : Spec) (k : RuleKey) (v : Option ℕ) (rules : Rules)
      → Holds t p
      → RulesValid h rules
      → ((q : RuleKey) → rule h rules q ≡ (if same_key k q then v else rule h t.rules q))
      → Holds (record t { rules = rules }) (put k v p)
  with_rules t p k v rules holds valid eqs = record {
    uids_valid = holds.uids_valid;
    rules_valid = valid;
    uids = holds.uids;
    rules = λ q. eqs q ∙ ap (λ r. if same_key k q then v else r) (holds.rules q);
  }

  add-Agree :
      (t : Tables) (p : Spec) (k : RuleKey) (strategy : ℕ) (alloc : Bool)
      → Holds t p
      → let r = add h t.rules (some k.name) k.code strategy alloc in
        Agree (r.0, record t { rules = r.1 }) (set_rule p k strategy alloc)
  unfolding set_rule
  add-Agree t p k strategy alloc holds =
      elim (add_outcome h t.rules holds.rules_valid k strategy alloc) [
        | inl (bad, e) ↦ elim (Bool-cases (acceptable k strategy)) [
          | inl good ↦ absurd (bad ((acceptable_iff k strategy).0 good))
          | inr refused ↦ rw (e, refused) (refl, holds)
        ]
        | inr (inl (ok, missing, out, e)) ↦
            rw (e, (acceptable_iff k strategy).1 ok, sym (holds.rules k) ∙ missing, out)
              (refl, holds)
        | inr (inr (ok, zero, room, sets)) ↦
            let go : is_some (p.strategy_of k) || alloc ≡ true =
              ap (λ v. is_some v || alloc) (sym (holds.rules k)) ∙ room in
            let taken : not (is_some (p.strategy_of k)) && not alloc ≡ false = ground arith in
            rw ((acceptable_iff k strategy).1 ok, taken)
              (
                zero,
                with_rules t p k (some strategy)
                    (add h t.rules (some k.name) k.code strategy alloc).1 holds sets.valid
                    sets.rules,
              )
      ]

  is_key_iff : (k : RuleKey) → (is_key k ≡ true) ↔ IsKey k
  is_key_iff k = (λ e. (ground arith, ground arith), λ i. ground (arith, i.0, i.1))

  del-Agree :
      (t : Tables) (p : Spec) (k : RuleKey)
      → Holds t p
      → let r = del h t.rules (some k.name) k.code in
        Agree (r.0, record t { rules = r.1 }) (clear_rule p k)
  unfolding clear_rule
  del-Agree t p k holds = elim (del_outcome h t.rules holds.rules_valid k) [
    | inl (bad, e) ↦ elim (Bool-cases (is_key k)) [
      | inl good ↦ absurd (bad ((is_key_iff k).0 good))
      | inr refused ↦ rw (e, refused) (refl, holds)
    ]
    | inr (ok, zero, clears, freed) ↦ rw ((is_key_iff k).1 ok) (
      zero,
      with_rules t p k none (del h t.rules (some k.name) k.code).1 holds clears.valid clears.rules,
    )
  ]

  add_uid-Holds :
      (t : Tables) (p : Spec) (uid : ℕ) (alloc : Bool)
      → Holds t p
      → Holds
          (record t { uids = add_net_uid h.min_hash t.uids uid alloc })
          (record p { monitors = λ v. p.monitors v || (v == uid && alloc) })
  add_uid-Holds t p uid alloc holds =
      let (valid, eqs) = monitored-add h.min_hash t.uids holds.uids_valid uid alloc in
      record {
        uids_valid = valid;
        rules_valid = holds.rules_valid;
        uids = λ v. eqs v ∙ ap (λ m. m || (v == uid && alloc)) (holds.uids v);
        rules = holds.rules;
      }

  del_uid-Holds :
      (t : Tables) (p : Spec) (uid : ℕ)
      → Holds t p
      → Holds
          (record t { uids = (del_net_uid h.min_hash t.uids uid).0 })
          (record p { monitors = λ v. p.monitors v && not (v == uid) })
  del_uid-Holds t p uid holds =
      let (valid, eqs, freed) = monitored-del h.min_hash t.uids holds.uids_valid uid in
      record {
        uids_valid = valid;
        rules_valid = holds.rules_valid;
        uids = λ v. eqs v ∙ ap (λ m. m && not (v == uid)) (holds.uids v);
        rules = holds.rules;
      }

  pub doit-Agree :
      (t : Tables) (p : Spec) (command : Command) (a : Attrs) (alloc : Bool)
      → Holds t p
      → Agree (doit h t command a alloc) (answer p command a alloc)
  unfolding doit answer monitor_net del_monitor_net add_free_async del_free_async
  doit-Agree t p add_monitor_net a alloc holds = elim (Option-cases a.uid) [
    | inl missing ↦ rw missing (refl, holds)
    | inr (uid, e) ↦ rw e (refl, add_uid-Holds t p uid alloc holds)
  ]
  doit-Agree t p del_monitor a alloc holds = elim (Option-cases a.uid) [
    | inl missing ↦ rw missing (refl, holds)
    | inr (uid, e) ↦ rw e (refl, del_uid-Holds t p uid holds)
  ]
  doit-Agree t p add_rule a alloc holds = elim (Option-cases a.rpc_name) [
    | inl missing ↦ rw missing (refl, holds)
    | inr (name, e1) ↦ elim (Option-cases a.code) [
      | inl missing ↦ rw (e1, missing) (refl, holds)
      | inr (code, e2) ↦ elim (Option-cases a.strategy) [
        | inl missing ↦ rw (e1, e2, missing) (refl, holds)
        | inr (strategy, e3) ↦
            rw (e1, e2, e3)
              (add-Agree t p (record { name = name; code = code }) strategy alloc holds)
      ]
    ]
  ]
  doit-Agree t p del_rule a alloc holds = elim (Option-cases a.rpc_name) [
    | inl missing ↦ rw missing (refl, holds)
    | inr (name, e1) ↦ elim (Option-cases a.code) [
      | inl missing ↦ rw (e1, missing) (refl, holds)
      | inr (code, e2) ↦ rw (e1, e2) (del-Agree t p (record { name = name; code = code }) holds)
    ]
  ]

  -- From tables that are well formed and hold what a specification says (a set of uids and a map
  -- from names and codes to strategies), whatever commands user space sends, with whatever
  -- attributes, and whichever calls of kmalloc fail: the handlers give the answers of the
  -- specification, and afterwards the tables are well formed and the uids monitored and the rules
  -- are those of the specification.
  pub serve-Holds :
      (rs : List Request) (t : Tables) (p : Spec)
      → Holds t p
      → ((serve h t rs).0 ≡ (answers p rs).0) × Holds (serve h t rs).1 (answers p rs).1
  unfolding serve answers
  serve-Holds [] t p holds = (refl, holds)
  serve-Holds (r ∷ rs) t p holds =
      let (same, next) = doit-Agree t p r.command r.attrs r.alloc holds in
      let (rest, end) =
        serve-Holds rs (doit h t r.command r.attrs r.alloc).1 (answer p r.command r.attrs r.alloc).1
          next in
      (ap₂ (λ rc rcs. rc ∷ rcs) same rest, end)
