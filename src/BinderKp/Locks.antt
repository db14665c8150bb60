-- ===== src/BinderKp/Locks.antt =====
-- The locks of rkx_binder_kp.c: the calls of rk_binder_node_lock, rk_binder_inner_proc_lock and their
-- counterparts, in the order in which the probe and rk_binder_proc_dec_tmpref make them, with what is
-- read and written in between.
use re_kernel_x.Base.{
  ℕ, suc, ◌≡◌, refl, Bool, true, false, ◌&&◌, ◌||◌, not, List, [], ◌∷◌, ◌++◌, Option, none, some,
  ◌>>=◌, if◌then◌else◌, ◌==◌, eq_ℤ, pos, Bool-cases, Option-cases, inl, inr,
}
use re_kernel_x.FreeAsync.{skip}
use re_kernel_x.BinderKp.{Txn, find_outdated}
use re_kernel_x.BinderKp.Probe.{
  Proc, State, Setting, dec_ℤ, queue_free_txn, take_off, unhook, dequeue, take_outdated, supersede,
  proc_dec_tmpref,
}

-- node->lock and proc->inner_lock
pub data Lock : Type 0 where
  node_lock : Lock
  inner_lock : Lock

-- spin_lock and spin_unlock; a read of has_async_transaction, of is_dead and is_frozen, and of
-- async_todo; the removal of the transaction at a place, the cut between it and its buffer, the work that is queued for one, the release of
-- a reference, and binder_free_proc.
pub data Action : Type 0 where
  locks : Lock → Action
  unlocks : Lock → Action
  reads_node : Action
  reads_proc : Action
  scans : Action
  takes : ℕ → Action
  unhooks : Txn → Action
  queues : Txn → Action
  drops : Action
  frees : Action

-- What an action changes.
abbrev pub perform : State → Action → State
perform s (locks l) = s
perform s (unlocks l) = s
perform s reads_node = s
perform s reads_proc = s
perform s scans = s
perform s (takes i) = take_off s i
perform s (unhooks t) = unhook s t t.buffer
perform s (queues t) = queue_free_txn s t t.buffer
perform s drops = record s { proc = record (s.proc) { tmp_ref = dec_ℤ s.proc.tmp_ref } }
perform s frees = record s { proc = record (s.proc) { freed = suc s.proc.freed } }

abbrev pub performs : State → List Action → State
performs s [] = s
performs s (a ∷ as') = performs (perform s a) as'

-- rkx_binder_proc_transaction_pre from the test of the strategy on
abbrev both_unlocks : List Action
both_unlocks = unlocks inner_lock ∷ unlocks node_lock ∷ []

unfoldable pub search_actions : Setting → State → Txn → ℕ → Bool → List Action
search_actions c s t strategy alloc = elim (find_outdated c.copy t s.async_todo strategy) [
  | none ↦ both_unlocks
  | some (i, old) ↦
      if alloc then takes i ∷ (both_unlocks ++ unhooks old ∷ queues old ∷ []) else both_unlocks
]

unfoldable pub supersede_actions : Setting → State → Txn → ℕ → Bool → List Action
supersede_actions c s t strategy alloc =
    if strategy == skip
    then []
    else locks node_lock
      ∷ reads_node
      ∷ (if not s.has_async_transaction
          then unlocks node_lock ∷ []
          else locks inner_lock
            ∷ reads_proc
            ∷ (if s.proc.is_dead || s.proc.is_frozen
                then both_unlocks
                else scans ∷ search_actions c s t strategy alloc))

-- rk_binder_proc_dec_tmpref, without the exported function
unfoldable pub dec_tmpref_actions : Proc → List Action
dec_tmpref_actions p =
    locks inner_lock
    ∷ drops
    ∷ unlocks inner_lock
    ∷ (if p.is_dead && p.no_threads && eq_ℤ (dec_ℤ p.tmp_ref) (pos 0) then frees ∷ [] else [])

-- The locks that are held: the node's and the process's.
pub record Held : Type 0 where
  pub node : Bool
  pub inner : Bool

abbrev pub no_locks : Held
no_locks = record { node = false; inner = false }

abbrev when : Bool → Held → Option Held
when go held = if go then some held else none

-- binder's discipline: no lock is taken twice, a node's before the process's, only a lock that is held is
-- released; the node and its queue are looked at under the node's lock, the process and its queues under
-- the process's; and a process is not freed with its lock held.
abbrev pub obeys : Held → Action → Option Held
obeys l (locks node_lock) = when (not l.node && not l.inner) (record l { node = true })
obeys l (locks inner_lock) = when (not l.inner) (record l { inner = true })
obeys l (unlocks node_lock) = when l.node (record l { node = false })
obeys l (unlocks inner_lock) = when l.inner (record l { inner = false })
obeys l reads_node = when l.node l
obeys l reads_proc = when l.inner l
obeys l scans = when (l.node && l.inner) l
obeys l (takes i) = when (l.node && l.inner) l
obeys l (unhooks t) = some l
obeys l (queues t) = some l
obeys l drops = when l.inner l
obeys l frees = when (not l.node && not l.inner) l

abbrev pub all_obey : Held → List Action → Option Held
all_obey l [] = some l
all_obey l (a ∷ as') = obeys l a >>= λ l'. all_obey l' as'

-- The guards, by their outcomes, in front of what is done under both locks.
abbrev guard_actions : (skips async gone : Bool) → List Action → List Action
guard_actions skips async gone rest =
    if skips
    then []
    else locks node_lock
      ∷ reads_node
      ∷ (if not async
          then unlocks node_lock ∷ []
          else locks inner_lock ∷ reads_proc ∷ (if gone then both_unlocks else scans ∷ rest))

guards_lem :
    (skips async gone : Bool) (rest : List Action) (s s' : State)
    → (performs s rest ≡ s')
      × (all_obey (record { node = true; inner = true }) rest ≡ some no_locks)
    → (performs s (guard_actions skips async gone rest)
        ≡ (if skips then s else if not async then s else if gone then s else s'))
      × (all_obey no_locks (guard_actions skips async gone rest) ≡ some no_locks)
guards_lem true async gone rest s s' h = (refl, refl)
guards_lem false false gone rest s s' h = (refl, refl)
guards_lem false true true rest s s' h = (refl, refl)
guards_lem false true false rest s s' h = h

module _ (c : Setting) (s : State) (t : Txn) (strategy : ℕ) (alloc : Bool) where
  search_lem :
      (performs s (search_actions c s t strategy alloc) ≡ take_outdated c s t strategy alloc)
      × (all_obey (record { node = true; inner = true }) (search_actions c s t strategy alloc)
          ≡ some no_locks)
  unfolding search_actions take_outdated dequeue
  search_lem = elim (Option-cases (find_outdated c.copy t s.async_todo strategy)) [
    | inl e ↦ rw (search_actions, take_outdated, e) (refl, refl)
    | inr ((i, old), e) ↦ elim (Bool-cases alloc) [
      | inl got ↦ rw (search_actions, take_outdated, e, got) (refl, refl)
      | inr out ↦ rw (search_actions, take_outdated, e, out) (refl, refl)
    ]
  ]

  supersede_actions_lem :
      (performs s (supersede_actions c s t strategy alloc) ≡ supersede c s t strategy alloc)
      × (all_obey no_locks (supersede_actions c s t strategy alloc) ≡ some no_locks)
  unfolding supersede_actions supersede
  supersede_actions_lem =
      guards_lem (strategy == skip) s.has_async_transaction (s.proc.is_dead || s.proc.is_frozen)
        (search_actions c s t strategy alloc) s (take_outdated c s t strategy alloc) search_lem

  dec_tmpref_actions_lem :
      (performs s (dec_tmpref_actions s.proc) ≡ record s { proc = proc_dec_tmpref none s.proc })
      × (all_obey no_locks (dec_tmpref_actions s.proc) ≡ some no_locks)
  unfolding dec_tmpref_actions proc_dec_tmpref
  dec_tmpref_actions_lem =
      elim (Bool-cases
        (s.proc.is_dead && s.proc.no_threads && eq_ℤ (dec_ℤ s.proc.tmp_ref) (pos 0))) [
          | inl last ↦ rw last (refl, refl)
          | inr more ↦ rw more (refl, refl)
        ]

  -- On every path, the actions of the probe from the test of the strategy on, and those of the release
  -- of a reference where binder_proc_dec_tmpref is not exported, obey binder's discipline of the two
  -- locks and leave both released, and performed one after the other they change the state as the models
  -- that take each of them as one step say.
  pub locks_outcome :
      (performs s (supersede_actions c s t strategy alloc) ≡ supersede c s t strategy alloc)
      × (all_obey no_locks (supersede_actions c s t strategy alloc) ≡ some no_locks)
      × (performs s (dec_tmpref_actions s.proc) ≡ record s { proc = proc_dec_tmpref none s.proc })
      × (all_obey no_locks (dec_tmpref_actions s.proc) ≡ some no_locks)
  locks_outcome = (
    supersede_actions_lem.0, supersede_actions_lem.1, dec_tmpref_actions_lem.0,
    dec_tmpref_actions_lem.1,
  )
