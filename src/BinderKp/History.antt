-- ===== src/BinderKp/History.antt =====
-- Sequences of calls of the probe, runs of the worker and changes by the rest of binder: what is
-- handed back, how many references are held, and when the process is freed.
use re_kernel_x.Base.{
  ℕ, suc, ◌+◌, ◌≡◌, refl, sym, ap, ◌∙◌, ◌⊎◌, inl, inr, Bool, true, false, ◌&&◌, List, [], ◌∷◌, ◌++◌,
  none, some, arith, Bool-cases, Option-cases, All, length, map, pos, eq_ℤ,
}
use mathlib.Core.List.{append_assoc}
use re_kernel_x.Binder.{is_one_way}
use re_kernel_x.Frozen.{is_frozen}
use re_kernel_x.BinderKp.{Txn, Buffer, Work}
use re_kernel_x.BinderKp.Probe.{
  Proc, State, FreeTxn, Setting, dec_ℤ, supersede, probe, strategy_for, proc_dec_tmpref, free_txn,
  run_work, off_end_offset,
}
use re_kernel_x.BinderKp.Outcome.{supersede_outcome, Dequeues}

-- What the exported binder_proc_dec_tmpref documents: it drops one reference, and frees a process
-- that is dead, without threads and without references.
abbrev pub DropsReference : Setting → Type 0
DropsReference c =
    (dec : Proc → Proc) → c.dec_tmpref ≡ some dec → (p : Proc) → dec p ≡ proc_dec_tmpref none p

-- The rest of binder: it queues and takes work, and the process freezes, thaws, or dies for good.
-- The references that it holds while the sequence runs are a constant number.
abbrev pub by_binder : State → Bool → Bool → Bool → Bool → List Work → State
by_binder s dead frozen no_threads has_async todo = record s {
  proc = record (s.proc) { is_dead = dead; is_frozen = frozen; no_threads = no_threads };
  has_async_transaction = has_async;
  async_todo = todo;
}

-- One step, from a state to the next.
pub data Step (c : Setting) : State → State → Type 0 where
  probes : {s s' : State} (t : Txn) (alloc : Bool) → probe c s t alloc ≡ some s' → Step c s s'
  works : {s : State} → Step c s (run_work c s)
  binder :
      {s : State} (dead frozen no_threads has_async : Bool) (todo : List Work)
      → (s.proc.is_dead ≡ true → dead ≡ true)
      → Step c s (by_binder s dead frozen no_threads has_async todo)

pub data Steps (c : Setting) : State → State → Type 0 where
  stop : {s : State} → Steps c s s
  followed : {s s' s'' : State} → Step c s s' → Steps c s' s'' → Steps c s s''

-- The accounts of a process on which the rest of binder holds `held` references.
pub record Balanced (held : ℕ) (s : State) : Type 0 where
  pub references : s.proc.tmp_ref ≡ pos (held + length s.queue)
  pub owns : All (λ w. w.buffer ≡ w.t.buffer) s.queue
  pub unhooked_eq : s.unhooked_txns ≡ s.freed_txns ++ map (λ w. w.t) s.queue
  pub unhooked_buffers_eq : s.unhooked_buffers ≡ map (λ t. t.buffer) s.unhooked_txns
  pub released_eq : s.released ≡ map (λ t. (t.buffer, off_end_offset t.buffer)) s.freed_txns
  pub buffers_eq : s.freed_buffers ≡ map (λ t. t.buffer) s.freed_txns
  pub deleted_eq : s.obj_deleted ≡ length s.freed_txns
  pub alive_or_done :
      (s.proc.freed ≡ 0)
      ⊎ ((s.proc.freed ≡ 1) × (s.proc.is_dead ≡ true) × (s.queue ≡ []) × (held ≡ 0))

All-snoc :
    {A : Type 0} (P : A → Type 0) (xs : List A) (x : A) → All P xs → P x → All P (xs ++ x ∷ [])
All-snoc P [] x a p = (p, tt)
All-snoc P (y ∷ ys) x (q, a) p = (q, All-snoc P ys x a p)

map-snoc :
    {A B : Type 0} (f : A → B) (xs : List A) (x : A) → map f (xs ++ x ∷ []) ≡ map f xs ++ f x ∷ []
map-snoc f [] x = refl
map-snoc f (y ∷ ys) x = ap (λ l. f y ∷ l) (map-snoc f ys x)

length-snoc : {A : Type 0} (xs : List A) (x : A) → length (xs ++ x ∷ []) ≡ suc (length xs)
length-snoc [] x = refl
length-snoc (y ∷ ys) x = ap suc (length-snoc ys x)

module _ (c : Setting) (held : ℕ) where
  dequeue-Balanced :
      (s s' : State) (t old : Txn) (strategy : ℕ)
      → s.proc.is_dead ≡ false
      → Dequeues c s t strategy old s'
      → Balanced held s
      → Balanced held s'
  dequeue-Balanced s s' t old strategy alive d b =
      let (released_eq, buffers_eq, txns_eq, deleted_eq, freed_eq) = d.untouched in
      let w : FreeTxn = record { t = old; buffer = old.buffer } in
      record {
        references =
            rw (d.reference, b.references, d.handed, length-snoc s.queue w) (ap pos (omega arith));
        owns = rw d.handed (All-snoc (λ w. w.buffer ≡ w.t.buffer) s.queue w b.owns refl);
        unhooked_eq =
            d.txn_unhooked
            ∙ ap (λ l. l ++ old ∷ []) b.unhooked_eq
            ∙ append_assoc s.freed_txns (map (λ w. w.t) s.queue) (old ∷ [])
            ∙ rw (txns_eq, d.handed, map-snoc {B = Txn} (λ w. w.t) s.queue w) refl;
        unhooked_buffers_eq =
            rw
              (
                d.buffer_unhooked,
                d.txn_unhooked,
                b.unhooked_buffers_eq,
                map-snoc {B = Buffer} (λ t. t.buffer) s.unhooked_txns old,
              )
              refl;
        released_eq = rw (released_eq, txns_eq) b.released_eq;
        buffers_eq = rw (buffers_eq, txns_eq) b.buffers_eq;
        deleted_eq = rw (deleted_eq, txns_eq) b.deleted_eq;
        alive_or_done = elim b.alive_or_done [
          | inl none_freed ↦ inl (freed_eq ∙ none_freed)
          | inr (_, dead, _, _) ↦ absurd (ground arith)
        ];
      }

  supersede-Balanced :
      (s : State) (t : Txn) (strategy : ℕ) (alloc : Bool)
      → Balanced held s
      → Balanced held (supersede c s t strategy alloc)
  supersede-Balanced s t strategy alloc b = elim (supersede_outcome c s t strategy alloc) [
    | inl (_, e) ↦ rw e b
    | inr (inl (_, _, e)) ↦ rw e b
    | inr (inr ((_, _, alive, _), _, (old, d))) ↦
        dequeue-Balanced s (supersede c s t strategy alloc) t old strategy alive d b
  ]

  probe_cases :
      (s s' : State) (t : Txn) (alloc : Bool)
      → probe c s t alloc ≡ some s'
      → (s' ≡ s) ⊎ ((strategy : ℕ) × (supersede c s t strategy alloc ≡ s'))
  unfolding probe
  probe_cases s s' t alloc e = elim (Bool-cases (is_one_way t.flags)) [
    | inr sync ↦ inl (ground arith)
    | inl way ↦ elim (Bool-cases (is_frozen c.kernel s.proc.tsk)) [
      | inr running ↦ inl (ground arith)
      | inl frozen ↦ elim (Option-cases (strategy_for c t)) [
        | inl faults ↦ absurd (ground arith)
        | inr (strategy, found) ↦ inr (strategy, ground arith)
      ]
    ]
  ]

  probe-Balanced :
      (s s' : State) (t : Txn) (alloc : Bool)
      → probe c s t alloc ≡ some s'
      → Balanced held s
      → Balanced held s'
  probe-Balanced s s' t alloc e b = elim (probe_cases s s' t alloc e) [
    | inl same ↦ rw same b
    | inr (strategy, eq) ↦ rw (← eq) (supersede-Balanced s t strategy alloc b)
  ]

-- The last reference to a dead process without threads frees it.
drop_outcome :
    (p : Proc) (n : ℕ)
    → p.tmp_ref ≡ pos (suc n)
    → let q = proc_dec_tmpref none p in
      (q.tmp_ref ≡ pos n)
      × (q.is_dead ≡ p.is_dead)
      × ((q.freed ≡ p.freed) ⊎ ((q.freed ≡ suc p.freed) × (p.is_dead ≡ true) × (n ≡ 0)))
unfolding proc_dec_tmpref
drop_outcome p n e =
    elim (Bool-cases (p.is_dead && p.no_threads && eq_ℤ (dec_ℤ p.tmp_ref) (pos 0))) [
      | inl last ↦
          let one : p.is_dead && p.no_threads && eq_ℤ (pos n) (pos 0) ≡ true = rw e at last in
          rw last (rw e refl, refl, inr (refl, ground arith, ground arith))
      | inr more ↦ rw more (rw e refl, refl, inl refl)
    ]

module _ (c : Setting) (held : ℕ) (drops : DropsReference c) where
  drop-none : (p : Proc) → proc_dec_tmpref c.dec_tmpref p ≡ proc_dec_tmpref none p
  drop-none p = elim (Option-cases c.dec_tmpref) [
    | inl e ↦ rw e
    | inr (dec, e) ↦ rw e (unfold proc_dec_tmpref in drops dec e p)
  ]

  free_txn-Balanced :
      (s : State) (w : FreeTxn) (ws : List FreeTxn)
      → s.queue ≡ w ∷ ws
      → Balanced held s
      → Balanced held (free_txn c (record s { queue = ws }) w)
  unfolding free_txn
  free_txn-Balanced s w ws e b =
      let (own, owns) : All (λ w. w.buffer ≡ w.t.buffer) (w ∷ ws) = rw e at b.owns in
      let refs : s.proc.tmp_ref ≡ pos (suc (held + length ws)) =
        b.references ∙ ap pos (rw e (omega arith)) in
      let (refs, dead, freed) = drop_outcome s.proc (held + length ws) refs in
      record {
        references = rw (drop-none s.proc) refs;
        owns = owns;
        unhooked_eq =
            b.unhooked_eq ∙ rw e (sym (append_assoc s.freed_txns (w.t ∷ []) (map (λ w. w.t) ws)));
        unhooked_buffers_eq = b.unhooked_buffers_eq;
        released_eq = rw (
          own,
          b.released_eq,
          map-snoc {B = Buffer × ℕ} (λ t. (t.buffer, off_end_offset t.buffer)) s.freed_txns w.t,
        );
        buffers_eq = rw (own, b.buffers_eq, map-snoc (λ t. t.buffer) s.freed_txns w.t);
        deleted_eq = rw (length-snoc s.freed_txns w.t) (ap suc b.deleted_eq);
        alive_or_done = rw (drop-none s.proc) (elim b.alive_or_done [
          | inr (_, _, idle, _) ↦ absurd (ground (arith, sym e ∙ idle))
          | inl none_freed ↦ elim freed [
            | inl same ↦ inl (same ∙ none_freed)
            | inr (more, died, none_left) ↦
                inr (more ∙ ap suc none_freed, dead ∙ died, empty ws (omega arith), omega arith)
          ]
        ]);
      }
    where
      empty : (ws : List FreeTxn) → length ws ≡ 0 → ws ≡ []
      empty [] h = refl
      empty (w ∷ ws) h = absurd (omega arith)

  run_work-Balanced : (s : State) → Balanced held s → Balanced held (run_work c s)
  unfolding run_work
  run_work-Balanced s b = by_queue s.queue refl
    where
      by_queue : (q : List FreeTxn) → s.queue ≡ q → Balanced held (run_work c s)
      by_queue [] e = rw (e, run_work) b
      by_queue (w ∷ ws) e = rw (e, run_work) (free_txn-Balanced s w ws e b)

  pub Step-Balanced : (s s' : State) → Step c s s' → Balanced held s → Balanced held s'
  Step-Balanced s s' (probes t alloc e) b = probe-Balanced c held s s' t alloc e b
  Step-Balanced s s' works b = run_work-Balanced s b
  Step-Balanced s s' (binder dead frozen no_threads has_async todo stays) b = record {
    references = b.references;
    owns = b.owns;
    unhooked_eq = b.unhooked_eq;
    unhooked_buffers_eq = b.unhooked_buffers_eq;
    released_eq = b.released_eq;
    buffers_eq = b.buffers_eq;
    deleted_eq = b.deleted_eq;
    alive_or_done = elim b.alive_or_done [
      | inl none_freed ↦ inl none_freed
      | inr (once, died, idle, unheld) ↦ inr (once, stays died, idle, unheld)
    ];
  }
