-- ===== src/BinderKp/Strategy.antt =====
-- The strategy that the probe of LKM-Source/rkx_binder_kp.c takes for a transaction, from the rules of
-- LKM-Source/rkx_free_async.c as a map.
use re_kernel_x.Base.{
  ℕ, ◌^◌, ◌<◌, ◌≡◌, refl, sym, ap, ◌∙◌, Bool, true, false, Option, none, some, if◌then◌else◌,
  CString, signed32, or_else, Bool-cases, inl, inr,
}
use re_kernel_x.Hashtable.Placed.{entries}
use re_kernel_x.FreeAsync.{lookup, has_entries, by_code}
use re_kernel_x.FreeAsync.Rules.{RuleKey, IsValid, rule}
use re_kernel_x.FreeAsync.Lookup.{answer, wildcard, lookup_lem}
use re_kernel_x.Binder.{token_size}
use re_kernel_x.BinderKp.{Txn, parse_interface_token}
use re_kernel_x.BinderKp.Probe.{Setting, strategy_for, strategy_after}

-- A rule's strategy, or "by code" without a rule.
abbrev pub or_by_code : Option ℕ → ℕ
or_by_code none = by_code
or_by_code (some strategy) = strategy

strategy_after-answer : (v : Option ℕ) → strategy_after by_code (answer v by_code) ≡ or_by_code v
strategy_after-answer none = refl
strategy_after-answer (some strategy) = refl

module _ (c : Setting) (valid : IsValid c.hash c.rules) (few : entries c.rules.rules < 2 ^ 31)
    (t : Txn) where
  -- The rule of a method of an interface, else that of the interface.
  abbrev pub rule_of : CString → Option ℕ
  rule_of name =
      let k : RuleKey = record { name = name; code = signed32 t.code } in
      or_else (rule c.hash c.rules k) (rule c.hash c.rules (wildcard k))

  looked_up :
      (name : CString)
      → strategy_after by_code (lookup c.hash c.rules (some name) (signed32 t.code) (some by_code))
        ≡ or_by_code (rule_of name)
  looked_up name =
      ap (strategy_after by_code) (
        lookup_lem c.hash c.rules valid (record { name = name; code = signed32 t.code }) by_code
          few)
      ∙ strategy_after-answer (rule_of name)

  -- Without entries no name has a rule.
  without_rules :
      (name : CString) → has_entries c.rules ≡ false → or_by_code (rule_of name) ≡ by_code
  unfolding lookup
  without_rules name e = sym (looked_up name) ∙ ap (strategy_after by_code) nothing
    where
      nothing :
          lookup c.hash c.rules (some name) (signed32 t.code) (some by_code) ≡ (false, some by_code)
      nothing = rw (lookup, e) refl

  -- With well-formed rules, fewer than 2 ^ 31, the strategy for a transaction whose interface name is
  -- read is that of the rule of its name and code, else of the wildcard rule of its name, else "by
  -- code"; without a name it is "by code". So the test for entries is only a shortcut.
  pub strategy_for_lem :
      (ok : Bool) (name : CString)
      → parse_interface_token c.copy t.buffer token_size ≡ some (ok, name)
      → strategy_for c t ≡ some (if ok then or_by_code (rule_of name) else by_code)
  unfolding strategy_for
  strategy_for_lem ok name e = elim (Bool-cases (has_entries c.rules)) [
    | inl entries ↦ rw (entries, e, looked_up name) refl
    | inr none_there ↦ rw none_there (by_flag none_there ok)
  ]
    where
      by_flag :
          has_entries c.rules ≡ false
          → (ok : Bool) → some by_code ≡ some (if ok then or_by_code (rule_of name) else by_code)
      by_flag none_there true = ap some (sym (without_rules name none_there))
      by_flag none_there false = refl
