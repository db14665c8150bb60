-- ===== src/BinderKp.antt =====
-- LKM-Source/rkx_binder_kp.c: the probe on binder_proc_transaction, which takes a superseded
-- asynchronous transaction off the queue of a frozen process, and the worker that frees it.
-- The spin locks make one call of the probe one step. What binder.c does (the copy out of a buffer,
-- its own release of a reference) is a parameter. A pointer to a queued transaction is its place in
-- the queue. (Registration is Lifecycle's.)
pub mod Token
pub mod Equal
pub mod Update
pub mod Probe
pub mod Outcome
pub mod Strategy
pub mod History
pub mod Locks
use re_kernel_x.Base.{
  ℕ, zero, suc, ◌+◌, ◌-◌, ◌*◌, ◌/◌, ◌%◌, ◌^◌, min, Bool, true, false, ◌&&◌, ◌||◌, not, List, [],
  ◌∷◌, ◌++◌, Option, none, some, ◌>>=◌, if◌then◌else◌, ◌==◌, ltb, leb, length, take, get_elem?, ℤ,
  pos, negsuc, eq_ℤ, signed32, CString, str_eq,
}
use re_kernel_x.Frozen.{Kernel, Task, is_frozen}
use re_kernel_x.FreeAsync.{Hash, lookup, has_entries, skip, by_code, by_data}
use re_kernel_x.FreeAsync.{State as Rules}
use re_kernel_x.Binder.{token_size, parcel_offset, is_one_way}

-- What is read of struct binder_buffer: the two sizes, the sender's pid, ptr and cookie of its
-- target_node, and the bytes in it.
pub record Buffer : Type 0 where
  pub data_size : ℕ
  pub offsets_size : ℕ
  pub pid : ℤ
  pub node_ptr : ℕ
  pub node_cookie : ℕ
  pub contents : List ℕ

-- What is read of struct binder_transaction: `to_tsk` is the pointer to_proc->tsk, or `none` if
-- to_proc is NULL.
pub record Txn : Type 0 where
  pub flags : ℕ
  pub to_tsk : Option ℕ
  pub code : ℕ
  pub buffer : Buffer

-- k_binder_alloc_copy_from_buffer(alloc, dest, buffer, offset, bytes): what is in `dest` when it
-- returns 0, or `none` when it returns an error.
abbrev pub Copier : Type 0
Copier = Buffer → ℕ → ℕ → Option (List ℕ)

abbrev pub chunk_at : ℕ → ℕ → ℕ
chunk_at total p = let chunk = total - p in if ltb 64 chunk then 64 else chunk

-- The loop of rkx_binder_buffer_data_equal, with fuel; `none` is "out of fuel".
unfoldable pub equal_loop : ℕ → Copier → Buffer → Buffer → ℕ → ℕ → Option Bool
equal_loop zero copy b1 b2 total p = none
equal_loop (suc fuel) copy b1 b2 total p =
    let chunk = chunk_at total p in
    let rest = equal_loop fuel copy b1 b2 total (p + chunk) in
    if ltb p total
    then (elim (copy b1 p chunk) [
      | none ↦ some false
      | some c1 ↦ elim (copy b2 p chunk) [
        | none ↦ some false
        | some c2 ↦ if str_eq c1 c2 then rest else some false
      ]
    ])
    else some true

abbrev pub or_false : Option Bool → Bool
or_false none = false
or_false (some b) = b

-- A round takes at least one byte, so total + 1 rounds are enough.
unfoldable pub buffer_data_equal : Option Copier → Buffer → Buffer → Bool
buffer_data_equal none b1 b2 = false
buffer_data_equal (some copy) b1 b2 =
    if not (b1.data_size == b2.data_size)
    then false
    else or_false (equal_loop (suc b1.data_size) copy b1 b2 b1.data_size 0)

-- `while (i + 1 < rpc_name_size && j < copy_size && *p != '\0')`: the number is
-- rpc_name_size - 1 - i, the rounds that its first test leaves; the result is what is stored from
-- rpc_name[i] on, and `none` is a read outside of the bytes that were copied.
unfoldable pub name_loop : ℕ → List ℕ → ℕ → ℕ → ℕ → Option CString
name_loop zero hdr copy_size j p = some []
name_loop (suc n) hdr copy_size j p =
    let rest = name_loop n hdr copy_size (j + 2) (p + 2) in
    if ltb j copy_size
    then (get_elem? hdr p >>= λ c. if c == 0 then some [] else rest >>= λ cs. some (c ∷ cs))
    else some []

abbrev pub copy_size : Buffer → ℕ
copy_size b = if ltb token_size b.data_size then token_size else b.data_size

abbrev pub is_named : CString → Bool × CString
is_named [] = (false, [])
is_named (c ∷ cs) = (true, c ∷ cs)

-- rkx_parse_interface_token with rpc_name_size bytes of room: its result and rpc_name.
unfoldable pub parse_interface_token : Option Copier → Buffer → ℕ → Option (Bool × CString)
parse_interface_token none b rpc_name_size = some (false, [])
parse_interface_token (some copy) b rpc_name_size =
    if leb b.data_size parcel_offset then some (false, []) else elim (copy b 0 (copy_size b)) [
      | none ↦ some (false, [])
      | some hdr ↦
          name_loop (rpc_name_size - 1) hdr (copy_size b) (parcel_offset + 1) parcel_offset
          >>= λ name. some (is_named name)
    ]

abbrev pub same_tsk : Option ℕ → Option ℕ → Bool
same_tsk none b = false
same_tsk (some a) none = false
same_tsk (some a) (some b) = a == b

-- rk_binder_can_update_transaction
unfoldable pub can_update : Option Copier → Txn → Txn → ℕ → Bool
can_update copy t1 t2 strategy =
    if not (is_one_way t1.flags && is_one_way t2.flags)
    then false
    else if same_tsk t1.to_tsk t2.to_tsk
        && t1.code == t2.code
        && t1.flags == t2.flags
        && eq_ℤ t1.buffer.pid t2.buffer.pid
        && t1.buffer.node_ptr == t2.buffer.node_ptr
        && t1.buffer.node_cookie == t2.buffer.node_cookie
    then (if not (t1.buffer.offsets_size == 0) || not (t2.buffer.offsets_size == 0)
        then false
        else if strategy == by_code
        then true
        else if strategy == by_data
        then buffer_data_equal copy t1.buffer t2.buffer
        else false)
    else false

-- An entry of node->async_todo: a transaction, or work of another type.
pub data Work : Type 0 where
  transaction : Txn → Work
  other_work : Work

-- rk_binder_find_outdated_transaction_ilocked: the place in the list and the transaction there.
unfoldable pub find_outdated : Option Copier → Txn → List Work → ℕ → Option (ℕ × Txn)
find_outdated copy t [] strategy = none
find_outdated copy t (w ∷ ws) strategy =
    let later = find_outdated copy t ws strategy >>= λ (i, q). some (suc i, q) in
    elim w [
      | other_work ↦ later
      | transaction q ↦ if can_update copy q t strategy then some (zero, q) else later
    ]

-- list_del_init of the node at a place
unfoldable pub unlink : ℕ → List Work → List Work
unlink i [] = []
unlink zero (w ∷ ws) = ws
unlink (suc i) (w ∷ ws) = w ∷ unlink i ws
