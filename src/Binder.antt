-- ===== src/Binder.antt =====
-- LKM-Source/rkx_binder.c: the hooks on binder's buffer allocation, replies and transactions.
-- A hook returns the event that it hands to rkx_send_message, if it hands over one. The kernel's
-- answers (the task that find_task_by_vpid finds, what a copy from user space leaves over) are
-- arguments. (Registration is Lifecycle's.)
pub mod Token
pub mod Hooks
pub mod Reports
use re_kernel_x.Base.{
  ℕ, zero, suc, ◌+◌, ◌-◌, ◌*◌, ◌%◌, ◌^◌, Bool, true, false, ◌&&◌, ◌||◌, not, List, [], ◌∷◌, Option,
  none, some, ◌>>=◌, if◌then◌else◌, ◌==◌, ltb, leb, length, take, get_elem?, replicate, ℤ, pos,
  eq_ℤ, signed32, minus_one, efault, CString, codes,
}
use re_kernel_x.Event.{
  Event, BinderEvent, binder, binder_transaction, binder_reply, binder_free_buffer_full,
  max_system_uid, min_app_uid,
}
use re_kernel_x.Frozen.{Kernel, Task, is_frozen, kernel_version}

-- RKX_INTERFACETOKEN_BUFF_SIZE, RKX_PARCEL_OFFSET and RKX_WARN_AHEAD_SPACE
abbrev pub token_size : ℕ
token_size = 140

abbrev pub parcel_offset : ℕ
parcel_offset = 16

abbrev pub warn_ahead_space : ℕ
warn_ahead_space = 2 ^ 17

-- What the hooks read of struct binder_proc.
pub record BinderProc : Type 0 where
  pub tsk : Option Task
  pub pid : ℤ

-- What the hooks read of struct binder_transaction_data: the flags, the code, the size of the
-- buffer, and of the buffer in user space its bytes, access_ok, and how many bytes a copy of it
-- leaves over.
pub record TransactionData : Type 0 where
  pub flags : ℕ
  pub code : ℕ
  pub data_size : ℕ
  pub user_bytes : List ℕ
  pub access_ok : Bool
  pub left_over : ℕ

-- TF_ONE_WAY is bit 0.
abbrev pub is_one_way : ℕ → Bool
is_one_way flags = flags % 2 == 1

-- rk_copy_from_user: 0 if and only if everything was copied.
unfoldable pub copy_from_user : Kernel → TransactionData → ℤ
copy_from_user k tr =
    if leb (kernel_version 6 1) k.version
    then (if tr.access_ok then (if tr.left_over == 0 then pos 0 else efault) else efault)
    else pos tr.left_over

-- `while (i < RKX_INTERFACETOKEN_BUFF_SIZE && j < buf_data_size && *p != '\0')`: the number is
-- RKX_INTERFACETOKEN_BUFF_SIZE - i, the rounds that its first test leaves; the result is what is
-- stored from rpc_name[i] on, and `none` is a read outside of the bytes that were copied.
unfoldable pub token_loop : ℕ → List ℕ → ℕ → ℕ → ℕ → Option CString
token_loop zero buf size j p = some []
token_loop (suc n) buf size j p =
    let rest = token_loop n buf size (j + 2) (p + 2) in
    if ltb j size
    then (get_elem? buf p >>= λ c. if c == 0 then some [] else rest >>= λ cs. some (c ∷ cs))
    else some []

-- The name in the copied buffer; `if (i == RKX_INTERFACETOKEN_BUFF_SIZE) rpc_name[i-1] = '\0'`.
unfoldable pub token_name : List ℕ → ℕ → Option CString
token_name buf size =
    if ltb parcel_offset size
    then (token_loop token_size buf size (parcel_offset + 1) parcel_offset >>= λ name.
        some (if length name == token_size then take (token_size - 1) name else name))
    else some []

abbrev pub buf_data_size : TransactionData → ℕ
buf_data_size tr = if ltb token_size tr.data_size then token_size else tr.data_size

-- An event between two processes with tasks `from` and `to`.
abbrev pub proc_event : ℕ → ℕ → Task → Task → ℤ → CString → Event
proc_event type oneway from to code name = binder (record {
  binder_type = type;
  oneway = oneway;
  from_pid = from.tgid;
  from_uid = from.uid;
  target_pid = to.tgid;
  target_uid = to.uid;
  code = code;
  rpc_name = name;
})

abbrev pub send_if : Bool → Event → Option Event
send_if ready e = if ready then some e else none

module _ (k : Kernel) where
  -- The tests that the hooks on replies and transactions share: both tasks are there, the target's
  -- uid passes, the processes differ, the target is frozen. The result is the two tasks.
  abbrev pub frozen_target : (ℕ → Bool) → Option BinderProc → BinderProc → Option (Task × Task)
  frozen_target uid_ok none proc = none
  frozen_target uid_ok (some target) proc = target.tsk >>= λ to. proc.tsk >>= λ from.
      if uid_ok to.uid && not (eq_ℤ proc.pid target.pid) && is_frozen k to
      then some (from, to)
      else none

module _ (k : Kernel) (ready : Bool) where
  -- rkx_binder_alloc_new_buf_locked_vh: the size asked for, sizeof(struct binder_buffer), the
  -- allocator's free_async_space (`none` if container_of gives NULL), the task that find_task_by_vpid
  -- finds for the allocator's pid, and `current`.
  unfoldable pub alloc_hook : ℕ → ℕ → Option ℕ → Bool → Option Task → Task → Option Event
  alloc_hook size buffer_size none is_async p current = none
  alloc_hook size buffer_size (some space) is_async none current = none
  alloc_hook size buffer_size (some space) is_async (some p) current =
      if is_async
        && (ltb space (3 * (size + buffer_size) % 2 ^ 64) || ltb space warn_ahead_space)
        && is_frozen k p
      then send_if ready
          (proc_event binder_free_buffer_full 1 current p minus_one (codes "FREE_BUFFER_FULL"))
      else none

  unfoldable pub reply_hook : Option BinderProc → BinderProc → Option Event
  reply_hook target proc =
      frozen_target k (λ uid. leb uid max_system_uid) target proc >>= λ (from, to).
      send_if ready (proc_event binder_reply 0 from to minus_one (codes "SYNC_BINDER_REPLY"))

  -- The asynchronous half of the hook on transactions; the outer `none` is a read out of bounds.
  unfoldable pub async_event : Task → Task → TransactionData → Option (Option Event)
  async_event from to tr =
      if eq_ℤ (copy_from_user k tr) (pos 0)
      then (token_name (take (buf_data_size tr) tr.user_bytes) (buf_data_size tr) >>= λ name. some (
          send_if ready (
            proc_event binder_transaction 1 from to (signed32 tr.code)
              (take (token_size - 1) name))))
      else some none

  unfoldable pub trans_hook :
      Option BinderProc → BinderProc → TransactionData → Option (Option Event)
  trans_hook target proc tr = elim (frozen_target k (λ uid. ltb min_app_uid uid) target proc) [
    | none ↦ some none
    | some (from, to) ↦
        if is_one_way tr.flags
        then async_event from to tr
        else some (
            send_if ready (proc_event binder_transaction 0 from to minus_one (codes "SYNC_BINDER")))
  ]
