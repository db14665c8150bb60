-- ===== src/Tests/BinderKpTests.antt =====
-- The probe of rkx_binder_kp.c on a frozen process with two superseded calls in its queue.
use re_kernel_x.Base.{
  ◌^◌, ◌<◌, ℕ, ◌+◌, ◌%◌, ◌≡◌, ◌≤◌, ◌≢◌, ◌↔◌, refl, true, false, ◌&&◌, [], ◌∷◌, none, some, arith,
  pos, codes, ◌==◌, leb, take, drop, length, if◌then◌else◌, replicate, CString, str_eq,
}
use mathlib.Core.Path.{subst}
use re_kernel_x.Hashtable.{hash_init, hash_add, find, modify}
use re_kernel_x.Hashtable.Placed.{entries}
use re_kernel_x.FreeAsync.{add, add_locked, hash}
use re_kernel_x.FreeAsync.Rules.{IsValid}
use re_kernel_x.FreeAsync.Invariant.{init-IsValid}
use re_kernel_x.FreeAsync.Reach.{add-IsValid}
use re_kernel_x.BinderKp.Strategy.{or_by_code, rule_of, strategy_for_lem}
use re_kernel_x.FreeAsync.{by_code, by_data, init, has_entries}
use re_kernel_x.Frozen.{is_frozen}
use re_kernel_x.Binder.{token_name}
use re_kernel_x.Binder.Token.{parcel, utf16}
use re_kernel_x.BinderKp.{
  Buffer, Txn, Copier, transaction, other_work, equal_loop, buffer_data_equal,
  parse_interface_token, is_named, can_update, find_outdated, unlink, name_loop,
}
use re_kernel_x.BinderKp.Equal.{CopiesBytes, IsFull, equal_loop-ends, buffer_data_equal_iff}
use re_kernel_x.BinderKp.Token.{parsers_agree, head_of}
use re_kernel_x.BinderKp.Update.{Supersedes, can_update_iff}
use re_kernel_x.BinderKp.Locks.{
  locks, inner_lock, node_lock, performs, supersede_actions, dec_tmpref_actions, all_obey, no_locks,
  locks_outcome,
}
use re_kernel_x.BinderKp.Probe.{
  State, Setting, supersede, strategy_for, probe, take_outdated, dequeue, run_work, free_txn,
  proc_dec_tmpref,
}
use re_kernel_x.BinderKp.Outcome.{probe-ends}
use re_kernel_x.Tests.Values.{sum, sum_hash, kernel, frozen_task}

-- A copy routine that refuses what is unaligned or out of the buffer.
abbrev pub copy : Copier
copy b offset n =
    if offset % 4 == 0 && leb (offset + n) b.data_size
    then some (take n (drop offset b.contents))
    else none

copies : (b : Buffer) → CopiesBytes copy b
copies b offset n aligned fits = ground arith

-- The calls "ab".3 with a given last byte.
abbrev pub call : ℕ → Txn
call x =
    let bytes = parcel (replicate 16 9) (codes "ab") (x ∷ []) in
    record {
      flags = 1;
      to_tsk = some 200;
      code = 3;
      buffer = record {
        data_size = 23;
        offsets_size = 0;
        pid = pos 100;
        node_ptr = 4096;
        node_cookie = 7;
        contents = bytes;
      };
    }

abbrev setting : Setting
setting = record {
  kernel = kernel;
  hash = sum_hash;
  rules = init;
  copy = some copy;
  dec_tmpref = none;
}

abbrev busy : State
busy = record {
  proc = record {
    tsk = frozen_task 200 10100;
    is_dead = false;
    is_frozen = false;
    no_threads = false;
    tmp_ref = pos 1;
    outstanding_txns = pos 2;
    freed = 0;
  };
  has_async_transaction = true;
  async_todo = other_work ∷ transaction (call 1) ∷ transaction (call 2) ∷ [];
  queue = [];
  released = [];
  unhooked_txns = [];
  unhooked_buffers = [];
  freed_buffers = [];
  freed_txns = [];
  obj_deleted = 0;
}

has_copy : (f : Copier) → some copy ≡ some f → CopiesBytes f (call 5).buffer
has_copy f e =
    let eq : copy ≡ f = cc in subst (λ g. CopiesBytes g (call 5).buffer) eq (copies (call 5).buffer)

full : (x : ℕ) → IsFull (call x).buffer
unfolding utf16
full x = refl

runs : Unit {0}
unfolding is_frozen strategy_for has_entries init supersede probe take_outdated dequeue run_work
    free_txn proc_dec_tmpref find_outdated unlink can_update buffer_data_equal equal_loop
    parse_interface_token name_loop str_eq utf16
runs = tt

-- The state after the probe took the first call.
abbrev taken : State
taken = record busy {
  proc = record (busy.proc) { tmp_ref = pos 2; outstanding_txns = pos 1 };
  async_todo = other_work ∷ transaction (call 2) ∷ [];
  queue = (record { t = call 1; buffer = (call 1).buffer }) ∷ [];
  unhooked_txns = call 1 ∷ [];
  unhooked_buffers = (call 1).buffer ∷ [];
}

by_data_keeps : can_update (some copy) (call 1) (call 2) by_data ≡ false
unfolding runs
by_data_keeps = refl

probe-ends_example : (s' : State) × (probe setting busy (call 5) true ≡ some s')
probe-ends_example = probe-ends setting busy (call 5) true has_copy (full 5)

can_update_iff_example :
    (can_update (some copy) (call 1) (call 2) by_data ≡ true) ↔ Supersedes (call 2) (call 1) by_data
can_update_iff_example =
    can_update_iff copy (call 2) (call 1) (copies (call 2).buffer) (copies (call 1).buffer) (full 2)
      (full 1) by_data

buffer_data_equal_iff_example :
    (buffer_data_equal (some copy) (call 1).buffer (call 2).buffer ≡ true)
    ↔ ((call 1).buffer.contents ≡ (call 2).buffer.contents)
buffer_data_equal_iff_example =
    buffer_data_equal_iff copy (call 1).buffer (call 2).buffer (copies (call 1).buffer)
      (copies (call 2).buffer) (full 1) (full 2)

equal_loop-ends_example : equal_loop 24 copy (call 1).buffer (call 2).buffer 23 0 ≢ none
equal_loop-ends_example =
    equal_loop-ends 24 copy (call 1).buffer (call 2).buffer 23 0 (omega arith) (omega arith)

parsers_agree_example :
    let b = (call 1).buffer in
    (name : CString) × (token_name (head_of b) (length (head_of b)) ≡ some name)
    × (parse_interface_token (some copy) b 140 ≡ some (is_named name))
    × (length name ≤ 62)
parsers_agree_example = parsers_agree copy (call 1).buffer (copies (call 1).buffer) (full 1)

-- A rule for the calls of the queue.
abbrev rule_setting : Setting
rule_setting = record setting {
  rules = (add sum_hash init (some (codes "ab")) (pos 3) by_data true).1;
}

rules_valid : IsValid sum_hash rule_setting.rules
rules_valid =
    add-IsValid sum_hash init (some (codes "ab")) (pos 3) by_data true (init-IsValid sum_hash)

few : entries rule_setting.rules.rules < 2 ^ 31
unfolding add add_locked init hash_init hash hash_add find modify sum entries
few = omega arith

pub reads_name : parse_interface_token (some copy) (call 5).buffer 140 ≡ some (true, codes "ab")
unfolding runs
reads_name = refl

strategy_for_lem_example :
    strategy_for rule_setting (call 5)
    ≡ some (or_by_code (rule_of rule_setting rules_valid few (call 5) (codes "ab")))
strategy_for_lem_example =
    strategy_for_lem rule_setting rules_valid few (call 5) true (codes "ab") reads_name

locks_outcome_example :
    (performs busy (supersede_actions setting busy (call 5) by_code true)
      ≡ supersede setting busy (call 5) by_code true)
    × (all_obey no_locks (supersede_actions setting busy (call 5) by_code true) ≡ some no_locks)
    × (performs busy (dec_tmpref_actions busy.proc)
        ≡ record busy { proc = proc_dec_tmpref none busy.proc })
    × (all_obey no_locks (dec_tmpref_actions busy.proc) ≡ some no_locks)
locks_outcome_example = locks_outcome setting busy (call 5) by_code true

-- The order of the locks: the process's before the node's is refused.
other_order : all_obey no_locks (locks inner_lock ∷ locks node_lock ∷ []) ≡ none
other_order = refl
