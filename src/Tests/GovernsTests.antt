-- ===== src/Tests/GovernsTests.antt =====
-- Calls of the Java methods, and what the hook on packets and the probe decide after them.
use re_kernel_x.Base.{
  ◌≡◌, ◌<◌, ◌^◌, ◌>>=◌, refl, true, false, List, Bool, [], ◌∷◌, Option, some, none, pos, arith, inr,
  ℕ, length-replicate, codes,
}
use re_kernel_x.Hashtable.{hash_init, hash_add, find, modify}
use re_kernel_x.Hashtable.Placed.{entries}
use re_kernel_x.FreeAsync.{add, add_locked, hash, by_data}
use re_kernel_x.FreeAsync.{init as no_rules}
use re_kernel_x.NetUid.{monitored}
use re_kernel_x.BinderKp.Probe.{strategy_for}
use re_kernel_x.Netfilter.{local_in_hook}
use re_kernel_x.Netfilter.Hook.{expected}
use re_kernel_x.Genl.{
  Tables, doit, monitor_net as serve_monitor_net, add_free_async as serve_add_free_async,
}
use re_kernel_x.Genl.Spec.{nothing}
use re_kernel_x.Genl.Refines.{init-Holds}
use re_kernel_x.Nla.Builder.{new, put_genl_header, put, finish}
use re_kernel_x.Client.State.{Client}
use re_kernel_x.Client.Commands.{
  monitor_net, begin, end_message, free_async, add_free_async, del_free_async, chain,
}
use re_kernel_x.System.{monitor, set_rule, Turn, run, turn, process}
use re_kernel_x.System.Replay.{replay}
use re_kernel_x.System.Governs.{with_tables, watching, spec_strategy, run-governs}
use re_kernel_x.Tests.Values.{sum_hash, sum, kernel}
use re_kernel_x.Tests.GenlTests.{tables}
use re_kernel_x.Tests.CommandTests.{connected, answers}
use re_kernel_x.Tests.CoreTests.{plain_core, plain_core-Documented, admit_all, unwire}
use re_kernel_x.Tests.SystemTests.{turns}
use re_kernel_x.Tests.BinderKpTests.{copy, call, reads_name}
use re_kernel_x.Tests.NetfilterTests.{packet, packet-IsPacket, hook_state, sock}

returns :
    (run plain_core sum_hash connected tables turns >>= λ r. some r.0)
    ≡ some (true ∷ true ∷ true ∷ false ∷ true ∷ [])
unfolding run turn process monitor_net begin end_message free_async add_free_async del_free_async
    chain new put_genl_header put finish
returns = refl

abbrev settings : List Turn
settings =
    (record { call = monitor (pos 10100); sys = answers 128; alloc = true })
    ∷ (record {
      call = set_rule (some (codes "ab")) (pos 3) (pos by_data);
      sys = answers 256;
      alloc = true;
    })
    ∷ []

abbrev or_start : Option (List Bool × Client × Tables) → List Bool × Client × Tables
or_start none = ([], connected, tables)
or_start (some r) = r

abbrev ends : List Bool × Client × Tables
ends = or_start (run plain_core sum_hash connected tables settings)

is_run : run plain_core sum_hash connected tables settings ≡ some ends
unfolding run turn process monitor_net begin end_message free_async add_free_async chain new
    put_genl_header put finish
is_run = refl

few : entries ends.2.rules.rules < 2 ^ 31
unfolding run turn process monitor_net begin end_message free_async add_free_async chain new
    put_genl_header put finish doit serve_monitor_net serve_add_free_async add add_locked no_rules
    hash_init hash hash_add find modify sum entries admit_all unwire
few = omega arith

run-governs_example :
    let q = replay nothing settings ends.0 in
    (strategy_for (with_tables kernel sum_hash (some copy) ends.2) (call 5)
      ≡ some (spec_strategy q (codes "ab") (call 5).code))
    × (local_in_hook
          (watching true true (monitored sum_hash.min_hash ends.2.uids))
          (some packet)
          (some hook_state)
          (some sock)
        ≡ some (expected (watching true true q.monitors) packet hook_state sock))
run-governs_example =
    run-governs plain_core plain_core-Documented sum_hash settings connected ends.1 tables ends.2
      nothing ends.0 (init-Holds sum_hash) (inr refl)
      (
        length-replicate {A = ℕ} 128 170,
        (
          (
            length-replicate {A = ℕ} 256 170,
            omega arith,
            (ground arith, (ground arith, tt)),
            omega arith,
          ),
          tt,
        ),
      )
      is_run few kernel (some copy) (call 5) (codes "ab") reads_name packet packet-IsPacket
      hook_state sock true true
