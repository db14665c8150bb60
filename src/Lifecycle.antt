-- ===== src/Lifecycle.antt =====
-- The life of the module: rkx_init and rkx_exit of LKM-Source/rkx.c, and the functions that register
-- and unregister in rkx_genl.c, rkx_binder.c, rkx_signal.c, rkx_netfilter.c and rkx_binder_kp.c. What
-- the kernel answers to a registration is a parameter; what it then has registered is part of the
-- state, beside the module's own flags.
pub mod Rollback
pub mod Parts
pub mod Outcome
use re_kernel_x.Base.{
  ℕ, suc, ◌+◌, ◌*◌, ◌^◌, Bool, true, false, ◌&&◌, ◌||◌, not, List, [], ◌∷◌, if◌then◌else◌, ltb, ℤ,
  pos, negsuc, eq_ℤ, rkx_error,
}
use re_kernel_x.Hashtable.{Table}
use re_kernel_x.FreeAsync.{State as Rules}
use re_kernel_x.FreeAsync.{init as init_free_async, destroy as destroy_free_async}
use re_kernel_x.NetUid.{UidInfo, init as init_net_uid, destroy as destroy_net_uid}

-- One registration: the module's flag for it, whether the kernel has it, and how often the kernel
-- was told to unregister what it did not have.
pub record Hook : Type 0 where
  pub hooked : Bool
  pub attached : Bool
  pub strays : ℕ

abbrev pub stray : Bool → ℕ → ℕ
stray attached n = if attached then n else suc n

-- A successful registration, and the flag after it.
abbrev pub attach : Hook → Hook
attach h = record h { hooked = true; attached = true }

-- `if (flag) { unregister; flag = false; }`
unfoldable pub detach : Hook → Hook
detach h =
    if h.hooked
    then record { hooked = false; attached = false; strays = stray h.attached h.strays }
    else h

-- A registration by its return code; the flag is set if it is 0.
unfoldable pub register : ℤ → Hook → ℤ × Hook
register rc h = if eq_ℤ rc (pos 0) then (rc, attach h) else (rc, h)

-- rkx_register_genl
unfoldable pub register_genl : ℤ → Hook → ℤ × Hook
register_genl rc h = if not (eq_ℤ rc (pos 0)) then (rkx_error, h) else (pos 0, attach h)

-- The three tracepoints of rkx_binder.c.
pub record BinderHooks : Type 0 where
  pub alloc_buf : Hook
  pub reply : Hook
  pub trans : Hook

-- rkx_unregister_binder
unfoldable pub unregister_binder : BinderHooks → BinderHooks
unfolding detach
unregister_binder b = record {
  alloc_buf = detach b.alloc_buf;
  reply = detach b.reply;
  trans = detach b.trans;
}

-- rkx_register_binder, by the return codes of the three registrations
unfoldable pub register_binder : ℤ → ℤ → ℤ → BinderHooks → ℤ × BinderHooks
unfolding unregister_binder register
register_binder rc1 rc2 rc3 b =
    let b1 = record b { alloc_buf = attach b.alloc_buf } in
    let b2 = record b1 { reply = attach b.reply } in
    if not (eq_ℤ rc1 (pos 0))
    then (rc1, unregister_binder b)
    else if not (eq_ℤ rc2 (pos 0))
    then (rc2, unregister_binder b1)
    else if not (eq_ℤ rc3 (pos 0))
    then (rc3, unregister_binder b2)
    else (pos 0, record b2 { trans = attach b.trans })

-- rkx_netfilter.c: the flag, and for each network namespace whether it has the hooks.
pub record NetHooks : Type 0 where
  pub hooked : Bool
  pub nets : List Bool
  pub strays : ℕ

-- rkx_unregister_netfilter_hooks
unfoldable pub unregister_nets : List Bool → ℕ → List Bool × ℕ
unregister_nets [] strays = ([], strays)
unregister_nets (n ∷ ns) strays =
    let (rest, strays') = unregister_nets ns (stray n strays) in (false ∷ rest, strays')

-- The loop of rkx_register_netfilter, by the return codes in the order of the namespaces.
unfoldable pub register_nets : (ℕ → ℤ) → List Bool → ℤ × List Bool
register_nets rcs [] = (pos 0, [])
register_nets rcs (n ∷ ns) =
    let (rc, rest) = register_nets (λ i. rcs (suc i)) ns in
    if not (eq_ℤ (rcs 0) (pos 0)) then (rcs 0, n ∷ ns) else (rc, true ∷ rest)

abbrev pub without_hooks : NetHooks → List Bool → NetHooks
without_hooks n nets =
    let (left, strays) = unregister_nets nets n.strays in record n { nets = left; strays = strays }

-- rkx_register_netfilter
unfoldable pub register_netfilter : (ℕ → ℤ) → NetHooks → ℤ × NetHooks
unfolding register_nets unregister_nets
register_netfilter rcs n =
    let (rc, nets) = register_nets rcs n.nets in
    if not (eq_ℤ rc (pos 0))
    then (rkx_error, without_hooks n nets)
    else (pos 0, record n { hooked = true; nets = nets })

-- rkx_unregister_netfilter
unfoldable pub unregister_netfilter : NetHooks → NetHooks
unfolding unregister_nets
unregister_netfilter n = if n.hooked then record (without_hooks n n.nets) { hooked = false } else n

-- rkx_binder_kp.c: the two kprobes and the work queue; a work queue is hooked if the pointer to it
-- is not NULL.
pub record KpHooks : Type 0 where
  pub kallsyms : Hook
  pub transaction : Hook
  pub workqueue : Hook

-- Which of the symbols that the module looks up the kernel has.
pub record Symbols : Type 0 where
  pub release_buffer : Bool
  pub free_buf : Bool
  pub copy : Bool
  pub stats : Bool
  pub dec_tmpref : Bool
  pub free_proc : Bool

-- LINUX_VERSION_CODE decides which of them are looked up.
abbrev pub resolved : ℕ → Symbols → Bool
resolved version y =
    y.release_buffer
    && y.free_buf
    && (ltb version (6 * 2 ^ 16) || y.copy)
    && y.stats
    && (y.dec_tmpref || ltb version (5 * 2 ^ 16 + 15 * 2 ^ 8) && y.free_proc)

-- rkx_unregister_binder_kp
unfoldable pub unregister_binder_kp : KpHooks → KpHooks
unfolding detach
unregister_binder_kp k = record k {
  transaction = detach k.transaction;
  workqueue = detach k.workqueue;
}

-- rkx_register_binder_kp: the outcome of alloc_workqueue, the return codes of the two kprobes, and
-- the symbols. The first kprobe has no flag: it is unregistered at once.
unfoldable pub register_binder_kp : Bool → ℤ → ℕ → Symbols → ℤ → KpHooks → KpHooks
unfolding unregister_binder_kp detach
register_binder_kp has_wq rc1 version symbols rc2 k =
    let k1 = record k { workqueue = attach k.workqueue } in
    let k2 = record k1 { kallsyms = detach (attach k.kallsyms) } in
    if not has_wq
    then unregister_binder_kp k
    else if not (eq_ℤ rc1 (pos 0))
    then unregister_binder_kp k1
    else if not (resolved version symbols)
    then unregister_binder_kp k2
    else if not (eq_ℤ rc2 (pos 0))
    then unregister_binder_kp k2
    else record k2 { transaction = attach k.transaction }

-- `in_flight`: a call of a hook on a tracepoint may be running; `torn_early`: how often the family or a
-- table was torn down while one might.
pub record Module : Type 0 where
  pub in_flight : Bool
  pub torn_early : ℕ
  pub genl : Hook
  pub binder : BinderHooks
  pub signal : Hook
  pub netfilter : NetHooks
  pub kp : KpHooks
  pub rules : Rules
  pub uids : Table UidInfo

-- What the kernel answers.
pub record Answers : Type 0 where
  pub genl : ℤ
  pub alloc_buf : ℤ
  pub reply : ℤ
  pub trans : ℤ
  pub signal : ℤ
  pub nets : ℕ → ℤ
  pub has_wq : Bool
  pub kallsyms : ℤ
  pub version : ℕ
  pub symbols : Symbols
  pub transaction : ℤ

-- Whether the kernel has a hook of the module on a tracepoint.
abbrev pub traced : Module → Bool
traced m =
    m.signal.attached || m.binder.alloc_buf.attached || m.binder.reply.attached
    || m.binder.trans.attached

-- tracepoint_synchronize_unregister: it waits for the calls of hooks that were unregistered.
abbrev pub synchronize : Module → Module
synchronize m = record m { in_flight = traced m }

-- What hooks use goes away.
abbrev pub tearing : Module → Module
tearing m = record m { torn_early = if m.in_flight then suc m.torn_early else m.torn_early }

-- rkx_exit; the path `err` of rkx_init takes the same steps in the same order.
unfoldable pub exit : Module → Module
unfolding unregister_binder_kp unregister_netfilter detach unregister_binder
exit m0 =
    let m1 = record m0 { kp = unregister_binder_kp m0.kp } in
    let m2 = record m1 { netfilter = unregister_netfilter m1.netfilter } in
    let m3 = record m2 { signal = detach m2.signal } in
    let m4 = record m3 { binder = unregister_binder m3.binder } in
    let m5 = synchronize m4 in
    let m6 = record (tearing m5) { genl = detach m5.genl } in
    let m7 = record (tearing m6) { rules = (destroy_free_async m6.rules).0 } in
    record (tearing m7) { uids = (destroy_net_uid m7.uids).0 }

-- rkx_init; hooks on tracepoints may be running as soon as rkx_register_binder registers the first,
-- and when it has unregistered them again on an error.
unfoldable pub init : Answers → Module → ℤ × Module
unfolding register_genl register_binder register register_netfilter register_binder_kp exit
init a m0 =
    let m1 = record m0 { rules = init_free_async; uids = init_net_uid } in
    let (rc1, genl) = register_genl a.genl m1.genl in
    let m2 = record m1 { genl = genl } in
    let (rc2, binder) = register_binder a.alloc_buf a.reply a.trans m2.binder in
    let m3 = record m2 { binder = binder; in_flight = true } in
    let (rc3, signal) = register a.signal m3.signal in
    let m4 = record m3 { signal = signal } in
    let (rc4, netfilter) = register_netfilter a.nets m4.netfilter in
    let m5 = record m4 { netfilter = netfilter } in
    let kp = register_binder_kp a.has_wq a.kallsyms a.version a.symbols a.transaction m5.kp in
    if not (eq_ℤ rc1 (pos 0))
    then (rkx_error, exit m2)
    else if not (eq_ℤ rc2 (pos 0))
    then (rkx_error, exit m3)
    else if not (eq_ℤ rc3 (pos 0))
    then (rkx_error, exit m4)
    else if not (eq_ℤ rc4 (pos 0))
    then (rkx_error, exit m5)
    else (pos 0, record m5 { kp = kp })
