-- ===== src/FreeAsync/Invariant.antt =====
-- Every operation of rkx_free_async.c keeps the table well formed, and what each does to the rules.
use re_kernel_x.Base.{
  ℕ, ◌≤◌, ◌<◌, ◌≡◌, refl, sym, inl, inr, true, false, none, some, arith, if◌then◌else◌, Bool-cases,
  Option-cases, ℤ, length, CString, ltb_ℤ, minus_one, is_some, set,
}
use mathlib.Core.Option
use re_kernel_x.Hashtable.{hash_add, modify, remove, bucket}
use re_kernel_x.Hashtable.Placed.{view, hash_init-IsPlaced, view-hash_init, entries-hash_init}
use re_kernel_x.Hashtable.Writes.{
  modify-IsPlaced, view-modify, entries-modify, remove-IsPlaced, view-remove, entries-remove,
  hash_add-IsPlaced, view-hash_add, entries-hash_add,
}
use re_kernel_x.FreeAsync.{
  Entry, State, Hash, strategy_valid, buff_size, init, set_strategy, matches, inc32, dec32,
}
use re_kernel_x.FreeAsync.Rules.{RuleKey, same_key, rule_key, keyed, rule, IsValid, same_key_iff}

module _ (h : Hash) where
  pub init-IsValid : IsValid h init
  unfolding init
  init-IsValid = record {
    placed = hash_init-IsPlaced (keyed h);
    counted = omega (arith, entries-hash_init Entry);
    sound = λ k e v. cc (view-hash_init (keyed h) k);
  }

  pub rule-init : (k : RuleKey) → rule h init k ≡ none
  unfolding init rule
  rule-init k = rw (view-hash_init (keyed h) k)

  same_key_symm : (k q : RuleKey) → same_key k q ≡ same_key q k
  same_key_symm k q = ground (arith, same_key_iff k q, same_key_iff q k)

  pub record Sets (s : State) (k : RuleKey) (strategy : ℕ) (s' : State) : Type 0 where
    pub valid : IsValid h s'
    pub rules : (q : RuleKey) → rule h s' q ≡ (if same_key k q then some strategy else rule h s q)

  pub record Clears (s : State) (k : RuleKey) (s' : State) : Type 0 where
    pub valid : IsValid h s'
    pub rules : (q : RuleKey) → rule h s' q ≡ (if same_key k q then none else rule h s q)

  module _ (s : State) (valid : IsValid h s) (name : CString) (code : ℤ) where
    abbrev pub key : RuleKey
    key = record { name = name; code = code }

    abbrev pub slot : ℕ
    slot = h.min_hash.slot (h.jhash name)

    module _ (strategy : ℕ) (sv : strategy_valid strategy ≡ true) where
      abbrev pub updated : State
      updated = record s {
        rules =
            set s.rules slot
              (modify (matches name code) (set_strategy strategy) (bucket s.rules slot));
      }

      updated-view :
          (q : RuleKey)
          → view (keyed h) updated.rules q ≡ (
              if same_key key q
              then Option.map (set_strategy strategy) (view (keyed h) s.rules q)
              else view (keyed h) s.rules q)
      updated-view =
          view-modify (keyed h) s.rules valid.placed key (set_strategy strategy) (λ e. refl)

      pub updated-Sets : is_some (view (keyed h) s.rules key) ≡ true → Sets s key strategy updated
      unfolding rule
      updated-Sets found = record {
        valid = record {
          placed =
              modify-IsPlaced (keyed h) s.rules valid.placed key (set_strategy strategy)
                (λ e. refl);
          counted =
              rw (entries-modify (keyed h) s.rules valid.placed key (set_strategy strategy))
                valid.counted;
          sound = λ q e v. elim (Option-cases (view (keyed h) s.rules q)) [
            | inl n ↦ ground (arith, updated-view q)
            | inr (x, e') ↦ ground (arith, updated-view q, valid.sound q x e')
          ];
        };
        rules = λ q. elim (Bool-cases (same_key key q)) [
          | inl e ↦
              let p = sym ((same_key_iff key q).0 e) in
              rw p (ground (arith, updated-view key, (same_key_iff key key).1 refl))
          | inr n ↦ ground (arith, updated-view q)
        ];
      }

      abbrev new_entry : CString → Entry
      new_entry stored = record { rpc_name = stored; code = code; strategy = strategy }

      abbrev pub added : CString → State
      added stored = record {
        rules = hash_add s.rules slot (new_entry stored);
        count = inc32 s.count;
      }

      module _ (absent : view (keyed h) s.rules key ≡ none) where
        added-view :
            (q : RuleKey)
            → view (keyed h) (added name).rules q
              ≡ (if same_key q key then some (new_entry name) else view (keyed h) s.rules q)
        added-view = view-hash_add (keyed h) s.rules valid.placed (new_entry name) absent

        pub added-Sets :
            1 ≤ length name
            → length name < buff_size
            → ltb_ℤ code minus_one ≡ false
            → Sets s key strategy (added name)
        unfolding rule
        added-Sets short long low = record {
          valid = record {
            placed = hash_add-IsPlaced (keyed h) s.rules valid.placed (new_entry name) absent;
            counted = omega (
              arith,
              valid.counted,
              entries-hash_add (keyed h) s.rules valid.placed (new_entry name) absent,
            );
            sound = λ q e v. elim (Bool-cases (same_key q key)) [
              | inl m ↦ let p = (same_key_iff q key).0 m in rw p (ground (arith, added-view q))
              | inr n ↦ ground (arith, added-view q, valid.sound q e)
            ];
          };
          rules = λ q. ground (arith, added-view q, same_key_symm q key);
        }

    abbrev pub removed : State
    removed = record {
      rules = set s.rules slot (remove (matches name code) (bucket s.rules slot));
      count = dec32 s.count;
    }

    removed-view :
        (q : RuleKey)
        → view (keyed h) removed.rules q
          ≡ (if same_key key q then none else view (keyed h) s.rules q)
    removed-view = view-remove (keyed h) s.rules valid.placed key

    pub removed-Clears : is_some (view (keyed h) s.rules key) ≡ true → Clears s key removed
    unfolding rule
    removed-Clears found = record {
      valid = record {
        placed = remove-IsPlaced (keyed h) s.rules valid.placed key;
        counted = ground (arith, entries-remove (keyed h) s.rules valid.placed key, valid.counted);
        sound = λ q e v. ground (arith, removed-view q, valid.sound q e);
      };
      rules = λ q. ground (arith, removed-view q);
    }
