-- ===== src/Genl/Spec.antt =====
-- What the commands promise, on a set of uids and a map from names and codes to strategies.
use re_kernel_x.Base.{
  ℕ, Bool, false, ◌&&◌, ◌||◌, not, List, [], ◌∷◌, Option, none, some, ℤ, pos, einval, enomem,
  if◌then◌else◌, ◌==◌, ltb_ℤ, minus_one, ltb, leb, length, is_some,
}
use re_kernel_x.FreeAsync.{strategy_valid, buff_size}
use re_kernel_x.FreeAsync.Rules.{RuleKey, same_key}
use re_kernel_x.Genl.{Attrs, Command, Request, add_monitor_net, del_monitor, add_rule, del_rule}

pub record Spec : Type 0 where
  pub monitors : ℕ → Bool
  pub strategy_of : RuleKey → Option ℕ

-- Nothing monitored, and no rule.
abbrev pub nothing : Spec
nothing = record { monitors = λ uid. false; strategy_of = λ k. none }

abbrev pub acceptable : RuleKey → ℕ → Bool
acceptable k strategy =
    leb 1 (length k.name)
    && ltb (length k.name) buff_size
    && not (ltb_ℤ k.code minus_one)
    && strategy_valid strategy

abbrev pub is_key : RuleKey → Bool
is_key k = leb 1 (length k.name) && not (ltb_ℤ k.code minus_one)

abbrev pub put : RuleKey → Option ℕ → Spec → Spec
put k v p = record p { strategy_of = λ q. if same_key k q then v else p.strategy_of q }

unfoldable pub set_rule : Spec → RuleKey → ℕ → Bool → ℤ × Spec
set_rule p k strategy alloc =
    if not (acceptable k strategy)
    then (einval, p)
    else if not (is_some (p.strategy_of k)) && not alloc
    then (enomem, p)
    else (pos 0, put k (some strategy) p)

unfoldable pub clear_rule : Spec → RuleKey → ℤ × Spec
clear_rule p k = if is_key k then (pos 0, put k none p) else (einval, p)

-- The answer to a request: -EINVAL if an attribute that the command needs is missing.
unfoldable pub answer : Spec → Command → Attrs → Bool → ℤ × Spec
unfolding set_rule clear_rule
answer p add_monitor_net a alloc = elim a.uid [
  | none ↦ (einval, p)
  | some uid ↦ (pos 0, record p { monitors = λ v. p.monitors v || (v == uid && alloc) })
]
answer p del_monitor a alloc = elim a.uid [
  | none ↦ (einval, p)
  | some uid ↦ (pos 0, record p { monitors = λ v. p.monitors v && not (v == uid) })
]
answer p add_rule a alloc = elim a.rpc_name [
  | none ↦ (einval, p)
  | some name ↦ elim a.code [
    | none ↦ (einval, p)
    | some code ↦ elim a.strategy [
      | none ↦ (einval, p)
      | some strategy ↦ set_rule p (record { name = name; code = code }) strategy alloc
    ]
  ]
]
answer p del_rule a alloc = elim a.rpc_name [
  | none ↦ (einval, p)
  | some name ↦ elim a.code [
    | none ↦ (einval, p)
    | some code ↦ clear_rule p (record { name = name; code = code })
  ]
]

unfoldable pub answers : Spec → List Request → List ℤ × Spec
unfolding answer
answers p [] = ([], p)
answers p (r ∷ rs) =
    let (rc, p') = answer p r.command r.attrs r.alloc in
    let (rcs, p'') = answers p' rs in (rc ∷ rcs, p'')
