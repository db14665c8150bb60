-- ===== src/System/Turns.antt =====
-- Calls of the native methods, from the Java arguments to the tables of the kernel module.
use re_kernel_x.Base.{
  ℕ, ◌≡◌, refl, sym, ◌⊎◌, inl, inr, Bool, true, false, List, [], ◌∷◌, none, some, arith, length,
  All, ℤ, CString,
}
use mathlib.Core.Path.{subst}
use re_kernel_x.FreeAsync.{Hash}
use re_kernel_x.Genl.{Tables}
use re_kernel_x.Genl.Spec.{Spec}
use re_kernel_x.Genl.Refines.{Holds}
use re_kernel_x.Nla.Wire.{Attr, wire, genl_message}
use re_kernel_x.Client.State.{Client, next_seq, disconnected}
use re_kernel_x.Client.Commands.{Answers, free_async, add_free_async, del_free_async}
use re_kernel_x.Client.Commands.Format.{uid_attrs, add_attrs, del_attrs, request}
use re_kernel_x.Client.Commands.Outcome.{after, monitor_net_outcome}
use re_kernel_x.Client.Commands.Rules.{add_free_async_outcome, del_free_async_outcome}
use re_kernel_x.Client.Decodes.Reads.{bind_some}
use re_kernel_x.System.{
  GenlCore, NativeCall, monitor, unmonitor, set_rule, clear_rule, invoke, Turn, process, turn, run,
}
use re_kernel_x.System.Core.{Documented, to_family}
use re_kernel_x.System.Replay.{effect, effect_if, replay, IsCall, IsTurn}
use re_kernel_x.System.Effects.{monitor-Holds, unmonitor-Holds, set_rule-Holds, clear_rule-Holds}

-- The client has no family, or that of the core.
abbrev pub Knows : GenlCore → Client → Type 0
Knows core s = (s.family ≡ 0) ⊎ (s.family ≡ core.id)

module _ (core : GenlCore) (h : Hash) where
  -- A call returns, and afterwards both ends are what its answer says.
  abbrev pub Follows : Client → Tables → Spec → Turn → Type 0
  Follows s t p x =
      (answer : Bool) × (s' : Client) × (t' : Tables) × (turn core h s t x ≡ some (answer, s', t'))
      × (s'.family ≡ s.family)
      × Holds h t' (effect_if answer x.call x.alloc p)

  -- Nothing was sent.
  silent :
      (s s' : Client) (t : Tables) (p : Spec) (x : Turn)
      → Holds h t p
      → invoke s x.sys x.call ≡ some (false, s')
      → s'.family ≡ s.family
      → Follows s t p x
  unfolding turn
  silent s s' t p x holds e same = (false, s', t, bind_some _ _ _ _ e refl, same, holds)

  -- A request was sent, and the answer is whether sendto took it.
  sent :
      (s : Client) (t : Tables) (p : Spec) (x : Turn) (answer : Bool) (message : List ℕ)
      → Holds h t p
      → invoke s x.sys x.call ≡ some (answer, after s message)
      → Holds h (process core h t message x.alloc).1 (effect x.call x.alloc p)
      → Follows s t p x
  unfolding turn
  sent s t p x true message holds e ends = (
    true,
    after s message,
    (process core h t message x.alloc).1,
    bind_some _ _ _ _ e refl,
    refl,
    ends,
  )
  sent s t p x false message holds e ends =
      (false, after s message, t, bind_some _ _ _ _ e refl, refl, holds)

  -- The same of a request for the family.
  asked :
      (s : Client) (t : Tables) (p : Spec) (x : Turn) (answer : Bool) (cmd : ℕ) (attrs : List Attr)
      → Holds h t p
      → s.family ≡ core.id
      → invoke s x.sys x.call ≡ some (answer, after s (request s cmd attrs))
      → Holds h
          (process core h t (to_family core s.seq cmd attrs) x.alloc).1
          (effect x.call x.alloc p)
      → Follows s t p x
  asked s t p x answer cmd attrs holds family e ends =
      sent s t p x answer (request s cmd attrs) holds e (
        subst
          (λ id.
            Holds h (process core h t (genl_message id 1 s.seq 0 cmd 1 (wire attrs)) x.alloc).1
              (effect x.call x.alloc p))
          (sym family) ends)

known : (core : GenlCore) (s : Client) → Knows core s → disconnected s ≡ false → s.family ≡ core.id
known core s (inl zero) on = absurd (ground arith)
known core s (inr same) on = same

module _ (core : GenlCore) (documented : Documented core) (h : Hash) where
  set_rule-Follows :
      (s : Client) (t : Tables) (p : Spec) (sys : Answers) (alloc : Bool) (rpc_name : CString)
      (code strategy : ℤ)
      → Holds h t p
      → Knows core s
      → IsCall (set_rule (some rpc_name) code strategy) (length sys.stack)
      → Follows core h s t p
          (record { call = set_rule (some rpc_name) code strategy; sys = sys; alloc = alloc })
  set_rule-Follows s t p sys alloc rpc_name code strategy holds knows (sized, short, clean, int) =
      let x : Turn = record {
        call = set_rule (some rpc_name) code strategy;
        sys = sys;
        alloc = alloc;
      } in
      elim (add_free_async_outcome s sys rpc_name code strategy sized short).1 [
        | inl (off, e) ↦ silent core h s s t p x holds e refl
        | inr (on, inl (long, e)) ↦ silent core h s (next_seq s) t p x holds e refl
        | inr (on, inr (fits, e)) ↦
            asked core h s t p x _ 4 (add_attrs rpc_name code strategy) holds
              (known core s knows (ground (arith, on))) e
              (set_rule-Holds core documented h t p s.seq rpc_name code strategy alloc holds short
                clean int)
      ]

  clear_rule-Follows :
      (s : Client) (t : Tables) (p : Spec) (sys : Answers) (alloc : Bool) (rpc_name : CString)
      (code : ℤ)
      → Holds h t p
      → Knows core s
      → IsCall (clear_rule (some rpc_name) code) (length sys.stack)
      → Follows core h s t p
          (record { call = clear_rule (some rpc_name) code; sys = sys; alloc = alloc })
  clear_rule-Follows s t p sys alloc rpc_name code holds knows (sized, short, clean, int) =
      let x : Turn = record { call = clear_rule (some rpc_name) code; sys = sys; alloc = alloc } in
      elim (del_free_async_outcome s sys rpc_name code sized short).1 [
        | inl (off, e) ↦ silent core h s s t p x holds e refl
        | inr (on, inl (long, e)) ↦ silent core h s (next_seq s) t p x holds e refl
        | inr (on, inr (fits, e)) ↦
            asked core h s t p x _ 5 (del_attrs rpc_name code) holds
              (known core s knows (ground (arith, on))) e
              (clear_rule-Holds core documented h t p s.seq rpc_name code alloc holds short clean
                int)
      ]

  turn-Follows :
      (s : Client) (t : Tables) (p : Spec) (call : NativeCall) (sys : Answers) (alloc : Bool)
      → Holds h t p
      → Knows core s
      → IsCall call (length sys.stack)
      → Follows core h s t p (record { call = call; sys = sys; alloc = alloc })
  unfolding add_free_async del_free_async free_async
  turn-Follows s t p (monitor uid) sys alloc holds knows sized =
      let x : Turn = record { call = monitor uid; sys = sys; alloc = alloc } in
      elim (monitor_net_outcome 2 s sys uid sized) [
        | inl (off, e) ↦ silent core h s s t p x holds e refl
        | inr (on, e) ↦
            asked core h s t p x _ 2 (uid_attrs uid) holds (known core s knows (ground (arith, on)))
              e (monitor-Holds core documented h t p s.seq uid alloc holds)
      ]
  turn-Follows s t p (unmonitor uid) sys alloc holds knows sized =
      let x : Turn = record { call = unmonitor uid; sys = sys; alloc = alloc } in
      elim (monitor_net_outcome 3 s sys uid sized) [
        | inl (off, e) ↦ silent core h s s t p x holds e refl
        | inr (on, e) ↦
            asked core h s t p x _ 3 (uid_attrs uid) holds (known core s knows (ground (arith, on)))
              e (unmonitor-Holds core documented h t p s.seq uid alloc holds)
      ]
  turn-Follows s t p (set_rule none code strategy) sys alloc holds knows is =
      silent core h s s t p
        (record { call = set_rule none code strategy; sys = sys; alloc = alloc }) holds refl refl
  turn-Follows s t p (set_rule (some rpc_name) code strategy) sys alloc holds knows is =
      set_rule-Follows s t p sys alloc rpc_name code strategy holds knows is
  turn-Follows s t p (clear_rule none code) sys alloc holds knows is =
      silent core h s s t p (record { call = clear_rule none code; sys = sys; alloc = alloc }) holds
        refl refl
  turn-Follows s t p (clear_rule (some rpc_name) code) sys alloc holds knows is =
      clear_rule-Follows s t p sys alloc rpc_name code holds knows is

  -- If the generic netlink core does what it documents, then from tables that are well formed and hold
  -- what a specification says, and with a client that has no family or that of the core: any sequence of
  -- calls of the four native methods that send a command, with arguments of their types and names of
  -- fewer than 65528 bytes without a zero, whatever the system answers and whichever calls of kmalloc
  -- fail, returns for each call, and afterwards the tables of the kernel module are well formed and hold
  -- what the specification says after those calls that returned true, and nothing of those that
  -- returned false. (A call that returned true may have been rejected by the kernel, which the
  -- specification says; the methods do not ask for its answer.)
  pub run-Follows :
      (xs : List Turn) (s : Client) (t : Tables) (p : Spec)
      → Holds h t p
      → Knows core s
      → All IsTurn xs
      → (answers : List Bool) × (s' : Client) × (t' : Tables) × (run core h s t xs
          ≡ some (answers, s', t'))
        × (length answers ≡ length xs)
        × Holds h t' (replay p xs answers)
  unfolding run
  run-Follows [] s t p holds knows is = ([], s, t, refl, refl, holds)
  run-Follows (x ∷ xs) s t p holds knows is =
      let (answer, s1, t1, e1, same, holds1) =
        turn-Follows s t p x.call x.sys x.alloc holds knows is.0 in
      let (answers, s2, t2, e2, count, holds2) =
        run-Follows xs s1 t1 (effect_if answer x.call x.alloc p) holds1
          (subst (λ f. (f ≡ 0) ⊎ (f ≡ core.id)) (sym same) knows) is.1 in
      (
        answer ∷ answers,
        s2,
        t2,
        bind_some _ _ _ _ e1 (bind_some _ _ _ _ e2 refl),
        omega arith,
        holds2,
      )
