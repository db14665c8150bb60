-- ===== src/System/Processes.antt =====
-- What becomes of each request of the client at the kernel's end.
use re_kernel_x.Base.{ℕ, ◌≤◌, ◌<◌, ◌≡◌, refl, ap, ◌∙◌, true, List, none, some, Bool, arith, All}
use re_kernel_x.FreeAsync.{Hash}
use re_kernel_x.Genl.{Tables, Command, doit}
use re_kernel_x.Genl.Policy.{op_of, Payloads, attrs_of}
use re_kernel_x.Nla.Wire.{Attr, Fits}
use re_kernel_x.System.{GenlCore, process}
use re_kernel_x.System.Core.{Documented, all_sound, any_too_long, payloads_of, to_family}

module _ (core : GenlCore) (h : Hash) where
  refused :
      (t : Tables) (message : List ℕ) (alloc : Bool)
      → core.admit message ≡ none
      → process core h t message alloc ≡ (none, t)
  unfolding process
  refused t message alloc e = rw (process, e) refl

  handed :
      (t : Tables) (message : List ℕ) (cmd : ℕ) (payloads : Payloads) (command : Command)
      (alloc : Bool)
      → core.admit message ≡ some (cmd, payloads)
      → op_of cmd ≡ some command
      → (process core h t message alloc).1 ≡ (doit h t command (attrs_of payloads) alloc).1
  unfolding process
  handed t message cmd payloads command alloc e op = rw (process, e, op) refl

  attrs_lem :
      (payloads other : Payloads)
      → ((k : ℕ) → 0 < k → k ≤ 49 → payloads k ≡ other k)
      → attrs_of payloads ≡ attrs_of other
  attrs_lem payloads other same =
      rw
        (
          same 40 (omega arith) (omega arith),
          same 41 (omega arith) (omega arith),
          same 42 (omega arith) (omega arith),
          same 43 (omega arith) (omega arith),
        )
        refl

module _ (core : GenlCore) (documented : Documented core) (h : Hash) where
  -- A request that is sound reaches its handler with the payloads of its attributes.
  pub process_sound :
      (t : Tables) (seq cmd : ℕ) (attrs : List Attr) (command : Command) (alloc : Bool)
      → op_of cmd ≡ some command
      → All Fits attrs
      → all_sound attrs ≡ true
      → (process core h t (to_family core seq cmd attrs) alloc).1
        ≡ (doit h t command (attrs_of (payloads_of attrs)) alloc).1
  process_sound t seq cmd attrs command alloc op fits good =
      let (payloads, e, same) = documented.admits seq cmd attrs fits good in
      handed core h t (to_family core seq cmd attrs) cmd payloads command alloc e op
      ∙ ap (λ a. (doit h t command a alloc).1) (attrs_lem core h payloads (payloads_of attrs) same)

  -- One with a string that is too long does not.
  pub process_too_long :
      (t : Tables) (seq cmd : ℕ) (attrs : List Attr) (alloc : Bool)
      → All Fits attrs
      → any_too_long attrs ≡ true
      → process core h t (to_family core seq cmd attrs) alloc ≡ (none, t)
  process_too_long t seq cmd attrs alloc fits bad =
      refused core h t (to_family core seq cmd attrs) alloc
        (documented.refuses seq cmd attrs fits bad)
