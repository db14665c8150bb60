-- ===== src/System/Governs.antt =====
-- From a call of a Java method to what the hooks and the probe of the kernel module decide.
use re_kernel_x.Base.{
  ℕ, ◌^◌, ◌<◌, ◌≡◌, refl, sym, ap, ap₂, ◌∙◌, Bool, true, List, Option, none, some, All, CString,
  signed32, or_else, Option-cases, inl, inr,
}
use mathlib.Core.Path.{subst}
use re_kernel_x.Hashtable.Placed.{entries}
use re_kernel_x.FreeAsync.{Hash}
use re_kernel_x.FreeAsync.Lookup.{wildcard}
use re_kernel_x.NetUid.{monitored}
use re_kernel_x.Binder.{token_size}
use re_kernel_x.BinderKp.{Txn, Copier, parse_interface_token}
use re_kernel_x.BinderKp.Probe.{Setting, strategy_for}
use re_kernel_x.BinderKp.Strategy.{or_by_code, strategy_for_lem}
use re_kernel_x.Frozen.{Kernel}
use re_kernel_x.Netfilter.{Packet, HookState, Sock, local_in_hook, sock_to_uid}
use re_kernel_x.Netfilter.{Setting as NetSetting}
use re_kernel_x.Netfilter.Hook.{IsPacket, expected, local_in_hook_lem}
use re_kernel_x.Genl.{Tables}
use re_kernel_x.Genl.Spec.{Spec}
use re_kernel_x.Genl.Refines.{Holds}
use re_kernel_x.Client.State.{Client}
use re_kernel_x.System.{GenlCore, Turn, run}
use re_kernel_x.System.Core.{Documented}
use re_kernel_x.System.Replay.{key, replay, IsTurn}
use re_kernel_x.System.Turns.{Knows, run-Follows}

-- What a kernel module with these tables runs with.
abbrev pub with_tables : Kernel → Hash → Option Copier → Tables → Setting
with_tables k h copy t = record {
  kernel = k;
  hash = h;
  rules = t.rules;
  copy = copy;
  dec_tmpref = none;
}

abbrev pub watching : Bool → Bool → (ℕ → Bool) → NetSetting
watching ipv6 ready is_monitored = record {
  ipv6 = ipv6;
  is_monitored = is_monitored;
  ready = ready;
}

-- The strategy that a specification has for a name and a code.
abbrev pub spec_strategy : Spec → CString → ℕ → ℕ
spec_strategy p name code =
    let k = key name (signed32 code) in
    or_by_code (or_else (p.strategy_of k) (p.strategy_of (wildcard k)))

module _ (h : Hash) (t : Tables) (p : Spec) (holds : Holds h t p) where
  probe_lem :
      (k : Kernel) (copy : Option Copier) (txn : Txn) (name : CString)
      → entries t.rules.rules < 2 ^ 31
      → parse_interface_token copy txn.buffer token_size ≡ some (true, name)
      → strategy_for (with_tables k h copy t) txn ≡ some (spec_strategy p name txn.code)
  probe_lem k copy txn name few reads =
      let rule_key = key name (signed32 txn.code) in
      strategy_for_lem (with_tables k h copy t) holds.rules_valid few txn true name reads
      ∙ ap₂ (λ exact wild. some (or_by_code (or_else exact wild))) (holds.rules rule_key)
          (holds.rules (wildcard rule_key))

  packet_lem :
      (pk : Packet) (ok : IsPacket pk) (state : HookState) (sk : Sock) (ipv6 ready : Bool)
      → local_in_hook
          (watching ipv6 ready (monitored h.min_hash t.uids))
          (some pk)
          (some state)
          (some sk)
        ≡ some (expected (watching ipv6 ready p.monitors) pk state sk)
  unfolding sock_to_uid
  packet_lem pk ok state sk ipv6 ready =
      let here : NetSetting = watching ipv6 ready (monitored h.min_hash t.uids) in
      local_in_hook_lem pk ok here state sk ∙ elim (Option-cases sk.socket_uid) [
        | inl e ↦ rw e refl
        | inr (uid, e) ↦ rw (e, holds.uids uid) refl
      ]

run_inj :
    {A B C : Type 0} (o : Option (A × B × C)) (a a' : A) (b b' : B) (c c' : C)
    → o ≡ some (a, b, c)
    → o ≡ some (a', b', c')
    → (a ≡ a') × (c ≡ c')
run_inj {A = A} {B = B} {C = C} o a a' b b' c c' e f =
    let same : some (a, b, c) ≡ some (a', b', c') = sym e ∙ f in
    (
      ap (λ r. (from_some {X = A × B × C} r (a, b, c)).0) same,
      ap (λ r. (from_some {X = A × B × C} r (a, b, c)).2) same,
    )
  where
    from_some : {X : Type 0} → Option X → X → X
    from_some none d = d
    from_some (some x) d = x

module _ (core : GenlCore) (documented : Documented core) (h : Hash) where
  -- If the generic netlink core does what it documents, and the tables hold what a specification says:
  -- after any run of calls of the Java methods (of a client with no family or that of the core, with
  -- arguments of their types, of names of fewer than 65528 bytes without a zero), if it leaves fewer than
  -- 2 ^ 31 rules, the probe takes, for a transaction in which it reads a name, the strategy that the
  -- specification has for the name and the code, after those calls that returned true, and the hook on
  -- packets (malformed ones and fragments as well, with the bytes that pskb_may_pull answers for, and
  -- with what ipv6_find_hdr leaves in thoff below 2 ^ 30) reads nothing out of bounds and reports, of
  -- those that come in at NF_INET_LOCAL_IN on a device, exactly those that say to be TCP, of an IP
  -- version that is built in, whose headers can be pulled and that have payload or one of SYN, FIN and
  -- RST, for full sockets whose uid is 10000 or more and is one that the specification then monitors, if
  -- the family is registered.
  pub run-governs :
      (xs : List Turn) (s s' : Client) (t t' : Tables) (p : Spec) (answers : List Bool)
      → Holds h t p
      → Knows core s
      → All IsTurn xs
      → run core h s t xs ≡ some (answers, s', t')
      → entries t'.rules.rules < 2 ^ 31
      → (k : Kernel) (copy : Option Copier) (txn : Txn) (name : CString)
      → parse_interface_token copy txn.buffer token_size ≡ some (true, name)
      → (pk : Packet) → IsPacket pk
      → (state : HookState) (sk : Sock) (ipv6 ready : Bool)
      → let q = replay p xs answers in
        (strategy_for (with_tables k h copy t') txn ≡ some (spec_strategy q name txn.code))
        × (local_in_hook
              (watching ipv6 ready (monitored h.min_hash t'.uids))
              (some pk)
              (some state)
              (some sk)
            ≡ some (expected (watching ipv6 ready q.monitors) pk state sk))
  run-governs xs s s' t t' p answers holds knows is e few k copy txn name reads pk ok state sk ipv6
        ready =
      let (answers', s1, t1, e1, count, holds1) =
        run-Follows core documented h xs s t p holds knows is in
      let (same, same_t) = run_inj (run core h s t xs) answers' answers s1 s' t1 t' e1 e in
      let ends : Holds h t' (replay p xs answers) =
        subst (λ u. Holds h u (replay p xs answers)) same_t
          (subst (λ a. Holds h t1 (replay p xs a)) same holds1) in
      (
        probe_lem h t' (replay p xs answers) ends k copy txn name few reads,
        packet_lem h t' (replay p xs answers) ends pk ok state sk ipv6 ready,
      )
