-- ===== src/Tests/GenlTests.antt =====
-- A sequence of commands to rkx_genl.c.
use re_kernel_x.Base.{
  ◌≡◌, refl, true, [], ◌∷◌, none, some, pos, codes, einval, minus_one, List, str_eq,
}
use re_kernel_x.Hashtable.{hash_init, hash_add, find, modify}
use re_kernel_x.FreeAsync.{init as no_rules}
use re_kernel_x.FreeAsync.{add, add_locked, hash, skip}
use re_kernel_x.NetUid.{monitored}
use re_kernel_x.NetUid.{init as no_uids, add as add_net_uid, del as del_net_uid}
use re_kernel_x.Genl.{
  Attrs, Tables, Request, add_monitor_net, del_monitor, add_rule, serve, doit, monitor_net,
  del_monitor_net, add_free_async, del_free_async,
}
use re_kernel_x.Genl.Spec.{nothing, answers}
use re_kernel_x.Genl.Refines.{Holds, init-Holds, serve-Holds}
use re_kernel_x.Tests.Values.{sum, sum_hash}

abbrev pub tables : Tables
tables = record { uids = no_uids; rules = no_rules }

abbrev attrs : Attrs
attrs = record {
  uid = some 10100;
  rpc_name = some (codes "IMessenger");
  code = some minus_one;
  strategy = some skip;
}

abbrev requests : List Request
requests =
    (record { command = add_monitor_net; attrs = attrs; alloc = true })
    ∷ (record { command = add_rule; attrs = attrs; alloc = true })
    ∷ (record { command = add_rule; attrs = record attrs { strategy = some 9 }; alloc = true })
    ∷ (record { command = del_monitor; attrs = record attrs { uid = none }; alloc = true })
    ∷ []

answers_in_order : (serve sum_hash tables requests).0 ≡ pos 0 ∷ pos 0 ∷ einval ∷ einval ∷ []
unfolding serve doit monitor_net del_monitor_net add_free_async del_free_async add add_locked hash
    hash_init hash_add find modify monitored no_rules no_uids add_net_uid del_net_uid sum str_eq
answers_in_order = refl

serve-Holds_example :
    ((serve sum_hash tables requests).0 ≡ (answers nothing requests).0)
    × Holds sum_hash (serve sum_hash tables requests).1 (answers nothing requests).1
serve-Holds_example = serve-Holds sum_hash requests tables nothing (init-Holds sum_hash)
