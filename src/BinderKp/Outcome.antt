-- ===== src/BinderKp/Outcome.antt =====
-- What one call of the probe does: nothing, or it takes exactly one superseded transaction.
use re_kernel_x.Base.{
  ℕ, ◌≡◌, ◌≢◌, refl, ◌⊎◌, inl, inr, Bool, true, false, signed32, ◌||◌, CString, [], ◌∷◌, ◌++◌,
  Option, none, some, arith, if◌then◌else◌, ◌==◌, Bool-cases, Option-cases, All,
}
use re_kernel_x.Binder.{token_size, is_one_way}
use re_kernel_x.Frozen.{is_frozen}
use re_kernel_x.FreeAsync.{skip, has_entries, by_code, lookup}
use re_kernel_x.BinderKp.{Txn, Copier, Buffer, find_outdated, parse_interface_token}
use re_kernel_x.BinderKp.Equal.{CopiesBytes, IsFull}
use re_kernel_x.BinderKp.Token.{parse_interface_token-token_of}
use re_kernel_x.BinderKp.Update.{Takes, Keeps, find_outdated-none, find_outdated-some}
use re_kernel_x.BinderKp.Probe.{
  State, Setting, inc_ℤ, dec_ℤ, dequeue, supersede, take_outdated, probe, strategy_for,
  strategy_after,
}

module _ (c : Setting) (s : State) (t : Txn) (strategy : ℕ) where
  -- The state after `old` was taken off the queue and handed to the worker.
  pub record Dequeues (old : Txn) (s' : State) : Type 0 where
    pub takes : Takes c.copy t strategy old s.async_todo s'.async_todo
    pub handed : s'.queue ≡ s.queue ++ (record { t = old; buffer = old.buffer }) ∷ []
    pub reference : s'.proc.tmp_ref ≡ inc_ℤ s.proc.tmp_ref
    pub outstanding : s'.proc.outstanding_txns ≡ dec_ℤ s.proc.outstanding_txns
    pub txn_unhooked : s'.unhooked_txns ≡ s.unhooked_txns ++ old ∷ []
    pub buffer_unhooked : s'.unhooked_buffers ≡ s.unhooked_buffers ++ old.buffer ∷ []
    pub untouched :
        (s'.released ≡ s.released)
        × (s'.freed_buffers ≡ s.freed_buffers)
        × (s'.freed_txns ≡ s.freed_txns)
        × (s'.obj_deleted ≡ s.obj_deleted)
        × (s'.proc.freed ≡ s.proc.freed)

  -- When the probe looks at the queue at all.
  abbrev pub Looks : Type 0
  Looks =
      (strategy ≢ skip)
      × (s.has_async_transaction ≡ true)
      × (s.proc.is_dead ≡ false)
      × (s.proc.is_frozen ≡ false)

  guards :
      (alloc : Bool)
      → let r = supersede c s t strategy alloc in
        ((Looks → ⊥) × (r ≡ s)) ⊎ (Looks × (r ≡ take_outdated c s t strategy alloc))
  unfolding supersede
  guards alloc = elim (Bool-cases (strategy == skip)) [
    | inl skips ↦ inl (λ l. ground arith, ground arith)
    | inr keeps ↦ elim (Bool-cases s.has_async_transaction) [
      | inr idle ↦ inl (λ l. ground arith, ground arith)
      | inl busy ↦ elim (Bool-cases (s.proc.is_dead || s.proc.is_frozen)) [
        | inl gone ↦ inl (λ l. ground arith, ground arith)
        | inr alive ↦ inr ((ground arith, busy, ground arith, ground arith), ground arith)
      ]
    ]
  ]

  take_cases :
      (alloc : Bool)
      → let r = take_outdated c s t strategy alloc in
        (((alloc ≡ false) ⊎ All (Keeps c.copy t strategy) s.async_todo) × (r ≡ s))
        ⊎ ((alloc ≡ true) × ((old : Txn) × Dequeues old r))
  unfolding take_outdated dequeue
  take_cases alloc = elim (Option-cases (find_outdated c.copy t s.async_todo strategy)) [
    | inl e ↦
        rw (e, take_outdated)
          (inl (inr (find_outdated-none c.copy t strategy s.async_todo e), refl))
    | inr ((i, old), e) ↦ elim (Bool-cases alloc) [
      | inr out ↦ rw (e, take_outdated, out) (inl (inl refl, refl))
      | inl got ↦
          rw (e, take_outdated, got)
            (inr (
              refl,
              (
                old,
                record {
                  takes = find_outdated-some c.copy t strategy s.async_todo i old e;
                  handed = refl;
                  reference = refl;
                  outstanding = refl;
                  txn_unhooked = refl;
                  buffer_unhooked = refl;
                  untouched = (refl, refl, refl, refl, refl);
                },
              ),
            ))
    ]
  ]

  pub supersede_outcome :
      (alloc : Bool)
      → let r = supersede c s t strategy alloc in
        ((Looks → ⊥) × (r ≡ s))
        ⊎ (Looks × ((alloc ≡ false) ⊎ All (Keeps c.copy t strategy) s.async_todo) × (r ≡ s))
        ⊎ (Looks × (alloc ≡ true) × ((old : Txn) × Dequeues old r))
  supersede_outcome alloc = elim (guards alloc) [
    | inl (no_look, e) ↦ rw e (inl (no_look, refl))
    | inr (looks, e) ↦ rw e (elim (take_cases alloc) [
      | inl (why, same) ↦ inr (inl (looks, why, same))
      | inr (got, found) ↦ inr (inr (looks, got, found))
    ])
  ]

parse-ends :
    (copy : Option Copier) (b : Buffer)
    → ((f : Copier) → copy ≡ some f → CopiesBytes f b)
    → IsFull b
    → (r : Bool × CString) × (parse_interface_token copy b token_size ≡ some r)
unfolding parse_interface_token
parse-ends none b copies full = ((false, []), refl)
parse-ends (some f) b copies full = (_, parse_interface_token-token_of f b (copies f refl) full)

strategy_for-ends :
    (c : Setting) (t : Txn)
    → ((copy : Copier) → c.copy ≡ some copy → CopiesBytes copy t.buffer)
    → IsFull t.buffer
    → (strategy : ℕ) × (strategy_for c t ≡ some strategy)
unfolding strategy_for
strategy_for-ends c t copies full =
    let ((ok, name), e) = parse-ends c.copy t.buffer copies full in
    elim (Bool-cases (has_entries c.rules)) [
      | inr empty ↦ (by_code, rw empty)
      | inl some_rules ↦ (
        (if ok
            then strategy_after by_code
                (lookup c.hash c.rules (some name) (signed32 t.code) (some by_code))
            else by_code),
        rw (some_rules, e),
      )
    ]

-- If the buffer of the transaction holds as many bytes as it says, and can be copied where the
-- copy is resolved, the probe gives a state: it never reads a byte outside of what it copied.
pub probe-ends :
    (c : Setting) (s : State) (t : Txn) (alloc : Bool)
    → ((copy : Copier) → c.copy ≡ some copy → CopiesBytes copy t.buffer)
    → IsFull t.buffer
    → (s' : State) × (probe c s t alloc ≡ some s')
unfolding probe
probe-ends c s t alloc copies full =
    let (strategy, e) = strategy_for-ends c t copies full in
    elim (Bool-cases (is_one_way t.flags)) [
      | inr sync ↦ (s, ground arith)
      | inl way ↦ elim (Bool-cases (is_frozen c.kernel s.proc.tsk)) [
        | inr running ↦ (s, ground arith)
        | inl frozen ↦ (supersede c s t strategy alloc, ground arith)
      ]
    ]
