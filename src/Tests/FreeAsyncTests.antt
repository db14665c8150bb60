-- ===== src/Tests/FreeAsyncTests.antt =====
-- The rules of rkx_free_async.c on two entries of one name.
use re_kernel_x.Base.{
  is_some, ◌||◌, ◌≡◌, refl, ◌⊎◌, true, false, Bool, [], ◌∷◌, none, some, arith, pos, negsuc,
  minus_one, codes, einval, enomem, str_eq, or_else,
}
use re_kernel_x.Hashtable.{hash_init, hash_add, free_all, free_chain, find, modify, remove}
use re_kernel_x.FreeAsync.{
  State, add, add_locked, del, del_locked, lookup, scan, hash, has_entries, init, destroy, skip,
  by_code,
}
use re_kernel_x.FreeAsync.Rules.{RuleKey, IsValid, rule, rule_key, keyed}
use re_kernel_x.FreeAsync.Invariant.{Sets, Clears, init-IsValid}
use re_kernel_x.FreeAsync.Contract.{Accepts, IsKey, add_outcome, del_outcome, to_list}
use re_kernel_x.FreeAsync.Lookup.{lookup_lem, answer, wildcard}
use re_kernel_x.FreeAsync.Reach.{adds, dels, run, add-IsValid, run-IsValid}
use re_kernel_x.Hashtable.Placed.{entries, view}
use re_kernel_x.Tests.Values.{sum, sum_hash}

-- The definitions that the runs unfold.
runs : Unit {0}
unfolding add add_locked del del_locked lookup scan hash has_entries init destroy hash_init hash_add
    free_all free_chain find modify remove sum str_eq rule
runs = tt

abbrev messenger : RuleKey
messenger = record { name = codes "IMessenger"; code = minus_one }

abbrev messenger_one : RuleKey
messenger_one = record { name = codes "IMessenger"; code = pos 1 }

abbrev start : State
start = init

abbrev one_rule : State
one_rule = (add sum_hash start (some messenger.name) minus_one skip true).1

abbrev two_rules : State
two_rules = (add sum_hash one_rule (some messenger.name) (pos 1) by_code true).1

looks_up_exact :
    lookup sum_hash two_rules (some messenger.name) (pos 1) (some 7) ≡ (true, some by_code)
unfolding runs
looks_up_exact = refl

looks_up_wild : lookup sum_hash two_rules (some messenger.name) (pos 2) (some 7) ≡ (true, some skip)
unfolding runs
looks_up_wild = refl

deletes :
    (del sum_hash two_rules (some messenger.name) (pos 1)).2
    ≡ record { rpc_name = codes "IMessenger"; code = pos 1; strategy = by_code } ∷ []
unfolding runs
deletes = refl

add_outcome_example :
    let r = add sum_hash start (some messenger.name) minus_one skip true in
    ((Accepts messenger skip → ⊥) × (r ≡ (einval, start)))
    ⊎ (Accepts messenger skip
        × (rule sum_hash start messenger ≡ none)
        × (◌≡◌ {A = Bool} true false)
        × (r ≡ (enomem, start)))
    ⊎ (Accepts messenger skip
        × (r.0 ≡ pos 0)
        × (◌≡◌ {A = Bool} (is_some (rule sum_hash start messenger) || true) true)
        × Sets sum_hash start messenger skip r.1)
add_outcome_example = add_outcome sum_hash start (init-IsValid sum_hash) messenger skip true

one_rule-IsValid : IsValid sum_hash one_rule
one_rule-IsValid =
    add-IsValid sum_hash start (some messenger.name) minus_one skip true (init-IsValid sum_hash)

two_rules-IsValid : IsValid sum_hash two_rules
two_rules-IsValid =
    add-IsValid sum_hash one_rule (some messenger.name) (pos 1) by_code true one_rule-IsValid

del_outcome_example :
    let r = del sum_hash two_rules (some messenger_one.name) (pos 1) in
    ((IsKey messenger_one → ⊥) × (r ≡ (einval, two_rules, [])))
    ⊎ (IsKey messenger_one
        × (r.0 ≡ pos 0)
        × Clears sum_hash two_rules messenger_one r.1
        × (r.2 ≡ to_list (view (keyed sum_hash) two_rules.rules messenger_one)))
del_outcome_example = del_outcome sum_hash two_rules two_rules-IsValid messenger_one

lookup_lem_example :
    lookup sum_hash two_rules (some messenger_one.name) (pos 1) (some 7)
    ≡ answer
        (or_else
          (rule sum_hash two_rules messenger_one)
          (rule sum_hash two_rules (wildcard messenger_one)))
        7
unfolding runs entries
lookup_lem_example = lookup_lem sum_hash two_rules two_rules-IsValid messenger_one 7 (omega arith)

run-IsValid_example :
    IsValid sum_hash
      (run sum_hash two_rules (dels none minus_one ∷ adds (some []) (negsuc 5) 9 false ∷ []))
run-IsValid_example = run-IsValid sum_hash two_rules _ two_rules-IsValid
