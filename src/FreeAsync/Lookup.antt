-- ===== src/FreeAsync/Lookup.antt =====
-- rkx_free_async_lookup_rcu against the rules: the exact rule, else the wildcard rule of the name.
use re_kernel_x.Base.{
  ℕ, ◌≤◌, ◌<◌, ◌^◌, ◌≡◌, refl, inl, inr, Bool, true, false, Option, none, some, List, [], ◌∷◌,
  arith, Option-cases, ℤ, CString, minus_one, or_else, ◌≢◌,
}
use mathlib.Core.Option
use re_kernel_x.Hashtable.{find, count, bucket}
use re_kernel_x.Hashtable.{find-eq-none_iff}
use re_kernel_x.Hashtable.Placed.{view, entries, bucket-of_empty}
use re_kernel_x.FreeAsync.{Entry, State, Hash, scan, choose, matches, lookup, has_entries, hash}
use re_kernel_x.FreeAsync.Rules.{RuleKey, rule_key, keyed, rule, IsValid}

abbrev strategy_or : Option ℕ → ℕ → ℕ
strategy_or none d = d
strategy_or (some s) d = s

abbrev strategy_of : Option Entry → Option ℕ
strategy_of = Option.map (λ e. e.strategy)

-- The loop finds the exact rule if there is one; if there is none, the wildcard one.
scan_exact :
    (name : CString) (code : ℤ) (c : List Entry) (wild : ℕ)
    → (scan name code c wild).0 ≡ strategy_or (strategy_of (find (matches name code) c)) 0
unfolding scan find
scan_exact name code [] wild = refl
scan_exact name code (e ∷ c) wild =
    ground (arith, scan_exact name code c wild, scan_exact name code c e.strategy)

scan_wild :
    (name : CString) (code : ℤ) (c : List Entry) (wild : ℕ)
    → count (matches name minus_one) c ≤ 1
    → find (matches name code) c ≡ none
    → (scan name code c wild).1 ≡ strategy_or (strategy_of (find (matches name minus_one) c)) wild
unfolding scan find count
scan_wild name code [] wild few absent = refl
scan_wild name code (e ∷ c) wild few absent = ground (
  arith,
  scan_wild name code c wild,
  scan_wild name code c e.strategy,
  find-eq-none_iff (matches name minus_one) c,
)

-- What a lookup answers for a strategy that it found or did not find.
abbrev pub answer : Option ℕ → ℕ → Bool × Option ℕ
answer none out = (false, some out)
answer (some s) out = (true, some s)

abbrev pub wildcard : RuleKey → RuleKey
wildcard k = record { name = k.name; code = minus_one }

module _ (h : Hash) (s : State) (valid : IsValid h s) where
  rule-ne-zero : (k : RuleKey) → rule h s k ≢ some 0
  unfolding rule
  rule-ne-zero k e = elim (Option-cases (view (keyed h) s.rules k)) [
    | inl n ↦ ground arith
    | inr (x, p) ↦ ground (arith, valid.sound k x p)
  ]

  scan-choose :
      (k : RuleKey) (out : ℕ)
      → let r = scan k.name k.code (bucket s.rules (hash h k.name)) 0 in
        choose r.0 r.1 out ≡ answer (or_else (rule h s k) (rule h s (wildcard k))) out
  unfolding rule hash view
  scan-choose k out =
      let c = bucket s.rules (hash h k.name) in
      ground (
        arith,
        scan_exact k.name k.code c 0,
        scan_wild k.name k.code c 0,
        valid.placed.once (wildcard k) (hash h k.name),
        rule-ne-zero k,
        rule-ne-zero (wildcard k),
      )

  no_rules : (k : RuleKey) → entries s.rules ≡ 0 → rule h s k ≡ none
  unfolding rule view find
  no_rules k e = rw (bucket-of_empty s.rules _ e)

  -- While fewer than 2 ^ 31 rules are stored in a well-formed table, a lookup of a name and a
  -- code finds the strategy of that very key, else the strategy of the name's wildcard, else
  -- nothing; if it finds nothing, *strategy_out stays as it was.
  pub lookup_lem :
      (k : RuleKey) (out : ℕ)
      → entries s.rules < 2 ^ 31
      → lookup h s (some k.name) k.code (some out)
        ≡ answer (or_else (rule h s k) (rule h s (wildcard k))) out
  unfolding lookup has_entries
  lookup_lem k out few =
      ground (arith, scan-choose k out, no_rules k, no_rules (wildcard k), valid.counted)
