-- ===== src/FreeAsync.antt =====
-- LKM-Source/rkx_free_async.c: the table of free-async rules, a strategy for each pair of an
-- interface name and a transaction code, where the code -1 is the wildcard.
-- The mutex makes each writer one step; a reader under rcu_read_lock sees the table between two
-- steps. `jhash` is <linux/jhash.h>'s, and kmalloc's outcome is an argument.
pub mod Rules
pub mod Invariant
pub mod Lookup
pub mod Contract
pub mod Reach
use re_kernel_x.Base.{
  ℕ, suc, ◌+◌, ◌-◌, ◌%◌, ◌^◌, min, Bool, true, false, not, ◌&&◌, ◌||◌, List, [], ◌∷◌, Option, none,
  some, if◌then◌else◌, ◌==◌, leb, length, take, set, ℤ, pos, ltb_ℤ, eq_ℤ, signed32, minus_one,
  einval, enomem, CString, str_eq,
}
use re_kernel_x.Abi.{free_async_skip, free_async_by_code, free_async_by_data}
use re_kernel_x.Abi.Module.{strategy_number}
use re_kernel_x.Hashtable.{
  HashMin, Table, bucket, hash_init, hash_add, free_all, find, modify, remove,
}

pub record Entry : Type 0 where
  pub rpc_name : CString
  pub code : ℤ
  pub strategy : ℕ

-- `count` is the bit pattern of the atomic_t.
pub record State : Type 0 where
  pub rules : Table Entry
  pub count : ℕ

pub record Hash : Type 0 where
  pub jhash : CString → ℕ
  pub min_hash : HashMin

-- RKX_INTERFACETOKEN_BUFF_SIZE
abbrev pub buff_size : ℕ
buff_size = 140

abbrev pub skip : ℕ
skip = strategy_number free_async_skip

abbrev pub by_code : ℕ
by_code = strategy_number free_async_by_code

abbrev pub by_data : ℕ
by_data = strategy_number free_async_by_data

abbrev pub strategy_valid : ℕ → Bool
strategy_valid s = s == skip || s == by_code || s == by_data

unfoldable pub has_entries : State → Bool
has_entries s = ltb_ℤ (pos 0) (signed32 s.count)

abbrev pub is_empty : CString → Bool
is_empty [] = true
is_empty (c ∷ cs) = false

-- The loop of the reader; `wild` is wild_strategy, and a zero in the result is "no strategy".
unfoldable pub scan : CString → ℤ → List Entry → ℕ → ℕ × ℕ
scan name code [] wild = (0, wild)
scan name code (e ∷ es) wild =
    let hit = str_eq e.rpc_name name in
    let rest = scan name code es (if hit && eq_ℤ e.code minus_one then e.strategy else wild) in
    if hit && eq_ℤ e.code code then (e.strategy, wild) else rest

-- The choice after the loop: the value returned, and *strategy_out.
abbrev pub choose : ℕ → ℕ → ℕ → Bool × Option ℕ
choose exact wild out =
    if not (exact == 0)
    then (true, some exact)
    else if not (wild == 0)
    then (true, some wild)
    else (false, some out)

abbrev pub matches : CString → ℤ → Entry → Bool
matches name code e = eq_ℤ e.code code && str_eq e.rpc_name name

abbrev pub inc32 : ℕ → ℕ
inc32 n = (n + 1) % 2 ^ 32

abbrev pub dec32 : ℕ → ℕ
dec32 n = (n + 2 ^ 32 - 1) % 2 ^ 32

abbrev pub set_strategy : ℕ → Entry → Entry
set_strategy s e = record e { strategy = s }

module _ (h : Hash) where
  unfoldable pub hash : CString → ℕ
  hash name = h.min_hash.slot (h.jhash name)

  -- A NULL pointer is `none`. The second component is *strategy_out after the call.
  unfoldable pub lookup : State → Option CString → ℤ → Option ℕ → Bool × Option ℕ
  unfolding has_entries hash
  lookup s none code out = (false, out)
  lookup s (some name) code none = (false, none)
  lookup s (some name) code (some out) =
      if not (has_entries s)
      then (false, some out)
      else (let (exact, wild) = scan name code (bucket s.rules (hash name)) 0 in
          choose exact wild out)

  -- The part of `add` under the mutex.
  unfoldable pub add_locked : State → CString → ℤ → ℕ → Bool → ℤ × State
  unfolding hash
  add_locked s name code strategy alloc =
      let i = hash name in
      let chain = bucket s.rules i in
      elim (find (matches name code) chain) [
        | some e ↦ (
          pos 0,
          record s {
            rules = set s.rules i (modify (matches name code) (set_strategy strategy) chain);
          },
        )
        | none ↦
            if alloc
            then (
              pos 0,
              record {
                rules = hash_add s.rules i (record {
                  rpc_name = take (buff_size - 1) name;
                  code = code;
                  strategy = strategy;
                });
                count = inc32 s.count;
              },
            )
            else (enomem, s)
      ]

  unfoldable pub add : State → Option CString → ℤ → ℕ → Bool → ℤ × State
  add s none code strategy alloc = (einval, s)
  add s (some name) code strategy alloc =
      let len = min (length name) buff_size in
      if is_empty name || ltb_ℤ code minus_one || not (strategy_valid strategy)
      then (einval, s)
      else if len == 0 || leb buff_size len
      then (einval, s)
      else add_locked s name code strategy alloc

  -- The part of `del` under the mutex; the list holds the entry given to kfree_rcu.
  unfoldable pub del_locked : State → CString → ℤ → State × List Entry
  unfolding hash
  del_locked s name code =
      let i = hash name in
      let chain = bucket s.rules i in
      elim (find (matches name code) chain) [
        | some e ↦ (
          record {
            rules = set s.rules i (remove (matches name code) chain);
            count = dec32 s.count;
          },
          e ∷ [],
        )
        | none ↦ (s, [])
      ]

  unfoldable pub del : State → Option CString → ℤ → ℤ × State × List Entry
  del s none code = (einval, s, [])
  del s (some name) code =
      if is_empty name || ltb_ℤ code minus_one
      then (einval, s, [])
      else (let (s', freed) = del_locked s name code in (pos 0, s', freed))

unfoldable pub destroy : State → State × List Entry
destroy s = let (freed, rules) = free_all s.rules [] in (record { rules = rules; count = 0 }, freed)

unfoldable pub init : State
init = record { rules = hash_init; count = 0 }
