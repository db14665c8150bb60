-- ===== src/FreeAsync/Rules.antt =====
-- The table of rkx_free_async.c as a map from (name, code) to a strategy.
use re_kernel_x.Base.{
  ℕ, ◌%◌, ◌^◌, ◌≤◌, ◌<◌, ◌≡◌, ◌↔◌, Bool, true, ◌&&◌, Option, some, arith, eq_ℤ, eq_ℤ_iff, ℤ, length,
  CString, str_eq, str_eq_iff, Eq, minus_one, ltb_ℤ, false,
}
use mathlib.Core.Option
use re_kernel_x.Hashtable.Placed.{Keyed, IsPlaced, view, entries}
use re_kernel_x.FreeAsync.{Entry, State, Hash, strategy_valid, buff_size}

pub record RuleKey : Type 0 where
  pub name : CString
  pub code : ℤ

abbrev pub same_key : RuleKey → RuleKey → Bool
same_key k q = eq_ℤ q.code k.code && str_eq q.name k.name

pub same_key_iff : (k q : RuleKey) → (same_key k q ≡ true) ↔ (k ≡ q)
same_key_iff k q = ground (arith, eq_ℤ_iff q.code k.code, str_eq_iff q.name k.name)

instance abbrev pub rule_key : Eq RuleKey
rule_key = record { same = same_key; same_iff = same_key_iff }

module _ (h : Hash) where
  abbrev pub keyed : Keyed Entry RuleKey
  keyed = record {
    key_of = λ e. record { name = e.rpc_name; code = e.code };
    home = λ k. h.min_hash.slot (h.jhash k.name);
    home-lt = λ k. h.min_hash.slot-lt (h.jhash k.name);
  }

  -- The strategy under a key.
  unfoldable pub rule : State → RuleKey → Option ℕ
  rule s k = Option.map (λ e. e.strategy) (view keyed s.rules k)

  pub record IsValid (s : State) : Type 0 where
    pub placed : IsPlaced keyed s.rules
    pub counted : s.count ≡ entries s.rules % 2 ^ 32
    pub sound :
        (k : RuleKey) (e : Entry)
        → view keyed s.rules k ≡ some e
        → (strategy_valid e.strategy ≡ true)
          × (1 ≤ length k.name)
          × (length k.name < buff_size)
          × (ltb_ℤ k.code minus_one ≡ false)
