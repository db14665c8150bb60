-- ===== src/Tests/LifecycleTests.antt =====
-- A start and an end of the module, and a start that a namespace refuses.
use re_kernel_x.Base.{
  ℕ, ◌+◌, ◌^◌, ◌*◌, ◌-◌, ◌≡◌, refl, ◌⊎◌, inr, true, false, pos, negsuc, rkx_error, if◌then◌else◌,
  ◌==◌, replicate,
}
use re_kernel_x.FreeAsync.{init as no_rules}
use re_kernel_x.NetUid.{init as no_uids}
use re_kernel_x.FreeAsync.Invariant.{init-IsValid as no_rules-IsValid}
use re_kernel_x.NetUid.Laws.{init-IsValid as no_uids-IsValid}
use re_kernel_x.Lifecycle.{Answers, init, exit, register_netfilter, register_nets, unregister_nets}
use re_kernel_x.Lifecycle.Rollback.{net_hooks, Accepted, FirstRefusal, register_netfilter_outcome}
use re_kernel_x.Lifecycle.Parts.{held, at_rest, running}
use re_kernel_x.Lifecycle.Outcome.{Started, init_outcome, exit-running}
use re_kernel_x.Tests.Values.{sum_hash}

-- The third namespace answers -ENOMEM, everything else succeeds.
abbrev answers : Answers
answers = record {
  genl = pos 0;
  alloc_buf = pos 0;
  reply = pos 0;
  trans = pos 0;
  signal = pos 0;
  nets = λ i. if i == 2 then negsuc 11 else pos 0;
  has_wq = true;
  kallsyms = pos 0;
  version = 6 * 2 ^ 16 + 2 ^ 8;
  symbols = record {
    release_buffer = true;
    free_buf = true;
    copy = true;
    stats = true;
    dec_tmpref = true;
    free_proc = false;
  };
  transaction = pos 0;
}

rolls_back :
    register_netfilter answers.nets (net_hooks false (replicate 5 false) 0)
    ≡ (rkx_error, net_hooks false (replicate 5 false) 3)
unfolding register_netfilter register_nets unregister_nets
rolls_back = refl

init_outcome_example :
    Started answers 2 no_rules no_uids (init answers (at_rest 2 0 no_rules no_uids))
init_outcome_example = init_outcome answers 2 no_rules no_uids

exit-running_example : exit (running 2 1 held no_rules no_uids) ≡ at_rest 3 1 no_rules no_uids
exit-running_example =
    exit-running sum_hash no_rules no_uids (no_rules-IsValid sum_hash)
      (no_uids-IsValid sum_hash.min_hash) 2 1 held (inr refl)

register_netfilter_outcome_example :
    let r = register_netfilter answers.nets (net_hooks false (replicate 5 false) 0) in
    (Accepted answers.nets 5 × (r ≡ (pos 0, net_hooks true (replicate 5 true) 0)))
    ⊎ ((j : ℕ) × FirstRefusal answers.nets 5 j
        × (r ≡ (rkx_error, net_hooks false (replicate 5 false) (5 - j))))
register_netfilter_outcome_example = register_netfilter_outcome 5 answers.nets
