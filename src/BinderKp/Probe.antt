-- ===== src/BinderKp/Probe.antt =====
-- LKM-Source/rkx_binder_kp.c: the handler rkx_binder_proc_transaction_pre and the worker
-- rkx_free_txn_func, on the state that they change.
use re_kernel_x.Base.{
  ℕ, suc, ◌+◌, ◌*◌, ◌/◌, Bool, ◌&&◌, ◌||◌, not, List, [], ◌∷◌, ◌++◌, Option, none, some, ◌>>=◌,
  if◌then◌else◌, ◌==◌, ℤ, pos, negsuc, eq_ℤ, signed32, zero,
}
use re_kernel_x.Frozen.{Kernel, Task, is_frozen}
use re_kernel_x.FreeAsync.{Hash, lookup, has_entries, skip, by_code}
use re_kernel_x.FreeAsync.{State as Rules}
use re_kernel_x.Binder.{token_size, is_one_way}
use re_kernel_x.BinderKp.{Buffer, Txn, Copier, Work, parse_interface_token, find_outdated, unlink}

abbrev pub inc_ℤ : ℤ → ℤ
inc_ℤ (pos n) = pos (suc n)
inc_ℤ (negsuc zero) = pos 0
inc_ℤ (negsuc (suc n)) = negsuc n

abbrev pub dec_ℤ : ℤ → ℤ
dec_ℤ (pos zero) = negsuc 0
dec_ℤ (pos (suc n)) = pos n
dec_ℤ (negsuc n) = negsuc (suc n)

-- What is read and written of struct binder_proc. `no_threads` is RB_EMPTY_ROOT(&proc->threads);
-- `freed` counts the calls of binder_free_proc.
pub record Proc : Type 0 where
  pub tsk : Task
  pub is_dead : Bool
  pub is_frozen : Bool
  pub no_threads : Bool
  pub tmp_ref : ℤ
  pub outstanding_txns : ℤ
  pub freed : ℕ

-- struct rkx_free_txn_work: the transaction, and its buffer, which is unhooked from it.
pub record FreeTxn : Type 0 where
  pub t : Txn
  pub buffer : Buffer

-- The process, its node, the work queue, the transactions and the buffers that were cut off from each
-- other (t->buffer and buffer->transaction are NULL in them), and what the worker has handed back: each call of
-- binder_transaction_buffer_release with its offset, each buffer given to binder_alloc_free_buf,
-- each transaction given to kfree, and the counter of deleted transactions.
pub record State : Type 0 where
  pub proc : Proc
  pub has_async_transaction : Bool
  pub async_todo : List Work
  pub queue : List FreeTxn
  pub unhooked_txns : List Txn
  pub unhooked_buffers : List Buffer
  pub released : List (Buffer × ℕ)
  pub freed_buffers : List Buffer
  pub freed_txns : List Txn
  pub obj_deleted : ℕ

-- The kernel, the rules of rkx_free_async.c, and the functions of binder.c that were resolved; the
-- last is binder_proc_dec_tmpref, which newer kernels export.
pub record Setting : Type 0 where
  pub kernel : Kernel
  pub hash : Hash
  pub rules : Rules
  pub copy : Option Copier
  pub dec_tmpref : Option (Proc → Proc)

abbrev pub strategy_after : ℕ → Bool × Option ℕ → ℕ
strategy_after old (found, none) = old
strategy_after old (found, some s) = s

-- The strategy for a transaction: "by code", unless the name in its buffer has a rule. The outer
-- `none` is a read out of bounds.
unfoldable pub strategy_for : Setting → Txn → Option ℕ
strategy_for c t =
    if has_entries c.rules
    then (parse_interface_token c.copy t.buffer token_size >>= λ (ok, name). some (
        if ok
        then strategy_after by_code
            (lookup c.hash c.rules (some name) (signed32 t.code) (some by_code))
        else by_code))
    else some by_code

-- rkx_queue_free_txn
abbrev pub queue_free_txn : State → Txn → Buffer → State
queue_free_txn s t buffer = record s { queue = s.queue ++ (record { t = t; buffer = buffer }) ∷ [] }

-- The part under the inner lock that takes the transaction at place `i` off the queue
abbrev pub take_off : State → ℕ → State
take_off s i = record s {
  proc = record (s.proc) {
    tmp_ref = inc_ℤ s.proc.tmp_ref;
    outstanding_txns = dec_ℤ s.proc.outstanding_txns;
  };
  async_todo = unlink i s.async_todo;
}

-- `t_outdated->buffer = NULL; buffer->transaction = NULL;`
abbrev pub unhook : State → Txn → Buffer → State
unhook s t buffer = record s {
  unhooked_txns = s.unhooked_txns ++ t ∷ [];
  unhooked_buffers = s.unhooked_buffers ++ buffer ∷ [];
}

-- All of it, one after the other.
unfoldable pub dequeue : State → ℕ → Txn → State
dequeue s i old =
    let buffer = old.buffer in queue_free_txn (unhook (take_off s i) old buffer) old buffer

-- The search under both locks and what follows if it finds one; `alloc` is the outcome of kzalloc.
unfoldable pub take_outdated : Setting → State → Txn → ℕ → Bool → State
take_outdated c s t strategy alloc = elim (find_outdated c.copy t s.async_todo strategy) [
  | none ↦ s
  | some (i, old) ↦ if alloc then dequeue s i old else s
]

-- From the test of the strategy on; `alloc` is the outcome of kzalloc.
unfoldable pub supersede : Setting → State → Txn → ℕ → Bool → State
supersede c s t strategy alloc =
    if strategy == skip
    then s
    else if not s.has_async_transaction
    then s
    else if s.proc.is_dead || s.proc.is_frozen
    then s
    else take_outdated c s t strategy alloc

-- rkx_binder_proc_transaction_pre
unfoldable pub probe : Setting → State → Txn → Bool → Option State
probe c s t alloc =
    if not (is_one_way t.flags)
    then some s
    else if is_frozen c.kernel s.proc.tsk
    then (strategy_for c t >>= λ strategy. some (supersede c s t strategy alloc))
    else some s

-- rk_binder_proc_dec_tmpref
unfoldable pub proc_dec_tmpref : Option (Proc → Proc) → Proc → Proc
proc_dec_tmpref (some dec) p = dec p
proc_dec_tmpref none p =
    let q = record p { tmp_ref = dec_ℤ p.tmp_ref } in
    if q.is_dead && q.no_threads && eq_ℤ q.tmp_ref (pos 0)
    then record q { freed = suc q.freed }
    else q

-- ALIGN(buffer->data_size, sizeof(void*)) + buffer->offsets_size
abbrev pub off_end_offset : Buffer → ℕ
off_end_offset b = (b.data_size + 7) / 8 * 8 + b.offsets_size

-- rk_binder_release_entire_buffer
abbrev pub release_entire_buffer : State → Buffer → State
release_entire_buffer s buffer = record s {
  released = s.released ++ (buffer, off_end_offset buffer) ∷ [];
}

-- binder_alloc_free_buf and kfree
abbrev pub alloc_free_buf : State → Buffer → State
alloc_free_buf s buffer = record s { freed_buffers = s.freed_buffers ++ buffer ∷ [] }

abbrev pub kfree_txn : State → Txn → State
kfree_txn s t = record s { freed_txns = s.freed_txns ++ t ∷ [] }

-- rk_binder_stats_deleted(BINDER_STAT_TRANSACTION)
abbrev pub stats_deleted : State → State
stats_deleted s = record s { obj_deleted = suc s.obj_deleted }

-- rkx_free_txn_func
unfoldable pub free_txn : Setting → State → FreeTxn → State
free_txn c s w =
    let s1 = alloc_free_buf (release_entire_buffer s w.buffer) w.buffer in
    let s2 = stats_deleted (kfree_txn s1 w.t) in
    record s2 { proc = proc_dec_tmpref c.dec_tmpref s2.proc }

-- The work queue runs its oldest item, if it has one; its items run one at a time.
unfoldable pub run_work : Setting → State → State
unfolding free_txn
run_work c s = elim s.queue [ [] ↦ s | w ∷ ws ↦ free_txn c (record s { queue = ws }) w ]
