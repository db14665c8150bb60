-- ===== src/Hashtable/Placed.antt =====
-- A table whose nodes stand in the chain of their key, each key at most once, read as a map from
-- keys to nodes; what one write to the chain of a key does to that map.
use re_kernel_x.Base.{
  ℕ, zero, suc, ◌+◌, ◌≤◌, ◌<◌, ◌≡◌, refl, sym, ◌∙◌, ◌≢◌, inl, inr, Bool, true, false, List, [], ◌∷◌,
  Option, none, arith, length, set, replicate, Bool-cases, length-replicate, get_or-replicate, Eq,
}
use re_kernel_x.Hashtable.{Table, bucket, hash_init}
use re_kernel_x.Hashtable.Chain.{find, count}

-- How nodes are keyed, and the chain of a key.
pub record Keyed {ℓ κ} (E : Type ℓ) (K : Type κ) : Type (ℓ ⊔ κ) where
  pub key_of : E → K
  pub home : K → ℕ
  pub home-lt : (k : K) → home k < 64

module _ {ℓ} {E : Type ℓ} where
  -- The number of nodes in all chains.
  unfoldable pub entries : Table E → ℕ
  entries [] = 0
  entries (c ∷ t) = length c + entries t

  pub entries-set :
      (t : Table E) (i : ℕ) (c : List E)
      → i < length t
      → entries (set t i c) + length (bucket t i) ≡ entries t + length c
  unfolding entries
  entries-set [] i c h = elim h [ ]
  entries-set (x ∷ t) zero c h = omega arith
  entries-set (x ∷ t) (suc i) c h = omega (arith, entries-set t i c (omega arith))

pub bucket-of_empty {ℓ} : {E : Type ℓ} (t : Table E) (i : ℕ) → entries t ≡ 0 → bucket t i ≡ []
unfolding entries
bucket-of_empty [] i h = refl
bucket-of_empty (x ∷ t) (suc i) h = bucket-of_empty t i (omega arith)
bucket-of_empty ([] ∷ t) zero h = refl
bucket-of_empty ((e ∷ c) ∷ t) zero h = absurd (omega arith)

entries-empty {ℓ} : (E : Type ℓ) (n : ℕ) → entries {E = E} (replicate n []) ≡ 0
unfolding entries
entries-empty E zero = refl
entries-empty E (suc n) = omega (arith, entries-empty E n)

pub entries-hash_init {ℓ} : (E : Type ℓ) → entries (hash_init {E = E}) ≡ 0
unfolding hash_init
entries-hash_init E = entries-empty E 64

module _ {ℓ κ} {E : Type ℓ} {K : Type κ} ⦃eq : Eq K⦄ (kd : Keyed E K) where
  abbrev pub holds_key : K → E → Bool
  holds_key k e = eq.same k (kd.key_of e)

  -- The node under a key.
  unfoldable pub view : Table E → K → Option E
  view t k = find (holds_key k) (bucket t (kd.home k))

  pub record IsPlaced (t : Table E) : Type (ℓ ⊔ κ) where
    pub width : length t ≡ 64
    pub once : (k : K) (i : ℕ) → count (holds_key k) (bucket t i) ≤ 1
    pub at_home : (k : K) (i : ℕ) → kd.home k ≢ i → count (holds_key k) (bucket t i) ≡ 0

  pub apart :
      (k q : K) → eq.same k q ≡ false → (e : E) → holds_key k e ≡ true → holds_key q e ≡ false
  apart k q d e h = elim (Bool-cases (holds_key q e)) [
    | inr n ↦ n
    | inl p ↦
        let a = (eq.same_iff k (kd.key_of e)).0 h in
        let b = (eq.same_iff q (kd.key_of e)).0 p in
        let c = (eq.same_iff k q).1 (a ∙ sym b) in ground arith
  ]

  pub hash_init-IsPlaced : IsPlaced hash_init
  unfolding hash_init count
  hash_init-IsPlaced = record {
    width = length-replicate {A = List E} 64 [];
    once = λ k i. rw (get_or-replicate 64 i) (omega arith);
    at_home = λ k i h. rw (get_or-replicate 64 i);
  }

  pub view-hash_init : (k : K) → view hash_init k ≡ none
  unfolding view hash_init find
  view-hash_init k = rw (get_or-replicate 64 (kd.home k))
