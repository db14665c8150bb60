-- ===== src/FreeAsync/Contract.antt =====
-- What rkx_add_free_async and rkx_del_free_async return and do, on every branch, against the map
-- from (name, code) to a strategy that the table stands for.
use re_kernel_x.Base.{
  is_some, ℕ, ◌≤◌, ◌<◌, ◌≡◌, refl, ◌⊎◌, inl, inr, Bool, true, false, not, ◌||◌, Option, none, some,
  List, [], ◌∷◌, arith, Bool-cases, Option-cases, take_all, pos, length, CString, einval, enomem,
  ltb_ℤ, minus_one, leb, min, ◌==◌,
}
use mathlib.Core.List.{flatten}
use re_kernel_x.Hashtable.{hash_init}
use re_kernel_x.Hashtable.Free.{free_all_lem}
use re_kernel_x.Hashtable.Placed.{view}
use re_kernel_x.FreeAsync.{
  Entry, State, Hash, strategy_valid, buff_size, add_locked, add, del_locked, del, is_empty,
  destroy, init,
}
use re_kernel_x.FreeAsync.Rules.{RuleKey, rule_key, keyed, rule, IsValid, same_key, same_key_iff}
use re_kernel_x.FreeAsync.Invariant.{Sets, Clears, updated-Sets, added-Sets, removed-Clears}

-- The names, codes and strategies that the interface documents.
pub record Accepts (k : RuleKey) (st : ℕ) : Type 0 where
  pub named : 1 ≤ length k.name
  pub fits : length k.name < buff_size
  pub wild_or_code : ltb_ℤ k.code minus_one ≡ false
  pub known : strategy_valid st ≡ true

-- The names and codes that a rule can have.
abbrev pub IsKey : RuleKey → Type 0
IsKey k = (1 ≤ length k.name) × (ltb_ℤ k.code minus_one ≡ false)

abbrev pub to_list : Option Entry → List Entry
to_list none = []
to_list (some e) = e ∷ []

module _ (h : Hash) (s : State) (valid : IsValid h s) (k : RuleKey) where
  add_locked_cases :
      (strategy : ℕ) (alloc : Bool)
      → Accepts k strategy
      → let r = add_locked h s k.name k.code strategy alloc in
        ((rule h s k ≡ none) × (alloc ≡ false) × (r ≡ (enomem, s)))
        ⊎ ((r.0 ≡ pos 0) × ((is_some (rule h s k) || alloc) ≡ true) × Sets h s k strategy r.1)
  unfolding add_locked rule view
  add_locked_cases strategy alloc a = elim (Option-cases (view (keyed h) s.rules k)) [
    | inr (e, p) ↦
        rw (p, add_locked)
          (inr (refl, refl, updated-Sets h s valid k.name k.code strategy a.known (ground arith)))
    | inl p ↦
        rw (p, add_locked)
          (elim (Bool-cases alloc) [
            | inl go ↦
                rw (go, take_all (139) k.name (omega (arith, a.fits)))
                  (inr (
                    refl,
                    refl,
                    added-Sets h s valid k.name k.code strategy a.known p a.named a.fits
                        a.wild_or_code,
                  ))
            | inr out ↦ rw out (inl (refl, refl, refl))
          ])
  ]

  length_pos : (n : CString) → is_empty n ≡ false → 1 ≤ length n
  length_pos [] e = ground arith
  length_pos (c ∷ n) e = omega arith

  nonempty : (n : CString) → 1 ≤ length n → is_empty n ≡ false
  nonempty [] e = elim e [ ]
  nonempty (c ∷ n) e = refl

  guards_of :
      (strategy : ℕ)
      → ((Accepts k strategy → ⊥)
          × ((alloc : Bool) → add h s (some k.name) k.code strategy alloc ≡ (einval, s)))
        ⊎ (Accepts k strategy
            × ((alloc : Bool)
                → add h s (some k.name) k.code strategy alloc
                  ≡ add_locked h s k.name k.code strategy alloc))
  unfolding add
  guards_of strategy =
      elim (Bool-cases
        (is_empty k.name || ltb_ℤ k.code minus_one || not (strategy_valid strategy))) [
          | inl bad ↦ inl (
            λ a. ground (arith, nonempty k.name a.named, a.wild_or_code, a.known),
            λ alloc. rw bad,
          )
          | inr good ↦
              elim (Bool-cases (
                min (length k.name) buff_size == 0
                || leb buff_size (min (length k.name) buff_size))) [
                  | inl long ↦ inl (λ a. ground (arith, a.fits, a.named), λ alloc. rw (good, long))
                  | inr short ↦ inr (
                    record {
                      named = ground (arith, length_pos k.name);
                      fits = ground arith;
                      wild_or_code = ground arith;
                      known = ground arith;
                    },
                    λ alloc. rw (good, short),
                  )
                ]
        ]

  -- In a well-formed table a rule is added exactly when its name is 1 to 139 bytes long, its code
  -- is at least -1 and its strategy is known; else the answer is -EINVAL. With no memory for a
  -- new rule it is -ENOMEM. Both errors leave the table as it was. Success, which takes memory if
  -- the key is new, answers 0, keeps the table well formed, gives the key that strategy and
  -- leaves every other key's.
  pub add_outcome :
      (strategy : ℕ) (alloc : Bool)
      → let r = add h s (some k.name) k.code strategy alloc in
        ((Accepts k strategy → ⊥) × (r ≡ (einval, s)))
        ⊎ (Accepts k strategy × (rule h s k ≡ none) × (alloc ≡ false) × (r ≡ (enomem, s)))
        ⊎ (Accepts k strategy
            × (r.0 ≡ pos 0)
            × ((is_some (rule h s k) || alloc) ≡ true)
            × Sets h s k strategy r.1)
  add_outcome strategy alloc = elim (guards_of strategy) [
    | inl (no_way, e) ↦ inl (no_way, e alloc)
    | inr (a, e) ↦ rw (e alloc) (elim (add_locked_cases strategy alloc a) [
      | inl (x, y, z) ↦ inr (inl (a, x, y, z))
      | inr (x, y, z) ↦ inr (inr (a, x, y, z))
    ])
  ]

  del_locked_lem :
      let r = del_locked h s k.name k.code in
      Clears h s k r.0 × (r.1 ≡ to_list (view (keyed h) s.rules k))
  unfolding del_locked rule view
  del_locked_lem = elim (Option-cases (view (keyed h) s.rules k)) [
    | inr (e, p) ↦ rw (p, del_locked) (removed-Clears h s valid k.name k.code (ground arith), refl)
    | inl p ↦
        rw (p, del_locked)
          (
            record {
              valid = valid;
              rules = λ q. elim (Bool-cases (same_key k q)) [
                | inl m ↦ rw (m, ← (same_key_iff k q).0 m) (ground arith)
                | inr n ↦ rw n
              ];
            },
            refl,
          )
  ]

  -- In a well-formed table deleting with no name or a code below -1 answers -EINVAL and changes
  -- nothing. Else the answer is 0, the table stays well formed, the key loses its rule and no
  -- other key does, and exactly the entry that the key had, if it had one, is given to kfree_rcu.
  pub del_outcome :
      let r = del h s (some k.name) k.code in
      ((IsKey k → ⊥) × (r ≡ (einval, s, [])))
      ⊎ (IsKey k × (r.0 ≡ pos 0) × Clears h s k r.1 × (r.2 ≡ to_list (view (keyed h) s.rules k)))
  unfolding del
  del_outcome = elim (Bool-cases (is_empty k.name || ltb_ℤ k.code minus_one)) [
    | inl bad ↦ inl (λ key. ground (arith, nonempty k.name key.0, key.1), rw bad)
    | inr good ↦ rw good (
        inr (
          (ground (arith, length_pos k.name), ground arith),
          refl,
          del_locked_lem.0,
          del_locked_lem.1,
        ))
  ]

-- Destroying a well-formed table gives every entry in it to kfree_rcu, once, and leaves it as a
-- new one is.
pub destroy-frees_entries :
    (h : Hash) (s : State) → IsValid h s → destroy s ≡ (init, flatten s.rules)
unfolding destroy init hash_init
destroy-frees_entries h s valid = rw (free_all_lem s.rules [], valid.placed.width)
