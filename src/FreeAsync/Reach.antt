-- ===== src/FreeAsync/Reach.antt =====
-- Histories of calls: whatever is added and deleted, in whatever order and with whatever success,
-- the table of rkx_free_async.c stays well formed.
use re_kernel_x.Base.{ℕ, inl, inr, Bool, Option, none, some, List, [], ◌∷◌, ℤ, CString}
use re_kernel_x.FreeAsync.{State, Hash, add, del}
use re_kernel_x.FreeAsync.Rules.{IsValid}
use re_kernel_x.FreeAsync.Contract.{add_outcome, del_outcome}

-- A call of rkx_add_free_async, with kmalloc's outcome, or of rkx_del_free_async.
pub data Call : Type 0 where
  adds : Option CString → ℤ → ℕ → Bool → Call
  dels : Option CString → ℤ → Call

module _ (h : Hash) where
  pub step : State → Call → State
  step s (adds name code strategy alloc) = (add h s name code strategy alloc).1
  step s (dels name code) = (del h s name code).1

  pub run : State → List Call → State
  run s [] = s
  run s (c ∷ cs) = run (step s c) cs

  pub add-IsValid :
      (s : State) (name : Option CString) (code : ℤ) (strategy : ℕ) (alloc : Bool)
      → IsValid h s
      → IsValid h (add h s name code strategy alloc).1
  unfolding add
  add-IsValid s none code strategy alloc v = v
  add-IsValid s (some name) code strategy alloc v =
      elim (add_outcome h s v (record { name = name; code = code }) strategy alloc) [
        | inl (_, e) ↦ rw e v
        | inr (inl (_, _, _, e)) ↦ rw e v
        | inr (inr (_, _, _, sets)) ↦ sets.valid
      ]

  pub del-IsValid :
      (s : State) (name : Option CString) (code : ℤ) → IsValid h s → IsValid h (del h s name code).1
  unfolding del
  del-IsValid s none code v = v
  del-IsValid s (some name) code v =
      elim (del_outcome h s v (record { name = name; code = code })) [
        | inl (_, e) ↦ rw e v
        | inr (_, _, clears, _) ↦ clears.valid
      ]

  step-IsValid : (s : State) (c : Call) → IsValid h s → IsValid h (step s c)
  unfolding step
  step-IsValid s (adds name code strategy alloc) v = add-IsValid s name code strategy alloc v
  step-IsValid s (dels name code) v = del-IsValid s name code v

  -- From any well-formed state, every sequence of additions and deletions (with any arguments, the
  -- NULL pointer included, and any outcome of kmalloc) leads to a state that is well formed: its
  -- entries stand in the chains of their names, no name and code has two, the counter is their
  -- number modulo 2 ^ 32, and every entry has a known strategy, a name of 1 to 139 bytes and a code
  -- of at least -1.
  pub run-IsValid : (s : State) (cs : List Call) → IsValid h s → IsValid h (run s cs)
  unfolding run
  run-IsValid s [] v = v
  run-IsValid s (c ∷ cs) v = run-IsValid (step s c) cs (step-IsValid s c v)
