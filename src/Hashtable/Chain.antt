-- ===== src/Hashtable/Chain.antt =====
-- One chain of a table: the loops over `hash_for_each_possible` that stop at the first node that
-- passes a test, and act on it.
use re_kernel_x.Base.{
  ℕ, suc, ◌+◌, ◌≤◌, ◌≡◌, refl, ◌↔◌, Bool, true, false, List, [], ◌∷◌, Option, none, some, arith,
  if◌then◌else◌, length,
}
use mathlib.Core.Option

module _ {ℓ} {E : Type ℓ} where
  -- the node at which the loop breaks
  unfoldable pub find : (E → Bool) → List E → Option E
  find p [] = none
  find p (e ∷ c) = if p e then some e else find p c

  -- a write to that node
  unfoldable pub modify : (E → Bool) → (E → E) → List E → List E
  modify p f [] = []
  modify p f (e ∷ c) = if p e then f e ∷ c else e ∷ modify p f c

  -- hash_del_rcu of that node
  unfoldable pub remove : (E → Bool) → List E → List E
  remove p [] = []
  remove p (e ∷ c) = if p e then c else e ∷ remove p c

  unfoldable pub count : (E → Bool) → List E → ℕ
  count p [] = 0
  count p (e ∷ c) = if p e then suc (count p c) else count p c

  pub find-eq-none_iff : (p : E → Bool) (c : List E) → (find p c ≡ none) ↔ (count p c ≡ 0)
  unfolding find count
  find-eq-none_iff p [] = ground arith
  find-eq-none_iff p (e ∷ c) = ground (arith, find-eq-none_iff p c)

  pub length-modify : (p : E → Bool) (f : E → E) (c : List E) → length (modify p f c) ≡ length c
  unfolding modify
  length-modify p f [] = refl
  length-modify p f (e ∷ c) = ground (arith, length-modify p f c)

  pub length-remove :
      (p : E → Bool) (c : List E) (e : E) → find p c ≡ some e → length (remove p c) + 1 ≡ length c
  unfolding remove find
  length-remove p [] e h = ground arith
  length-remove p (x ∷ c) e h = ground (arith, length-remove p c e)

  pub remove_absent : (p : E → Bool) (c : List E) → find p c ≡ none → remove p c ≡ c
  unfolding remove find
  remove_absent p [] h = refl
  remove_absent p (x ∷ c) h = ground (arith, remove_absent p c)

  pub find-passes : (p : E → Bool) (c : List E) (e : E) → find p c ≡ some e → p e ≡ true
  unfolding find
  find-passes p [] e h = ground arith
  find-passes p (x ∷ c) e h = ground (arith, find-passes p c e)

  pub count-remove_le : (p q : E → Bool) (c : List E) → count q (remove p c) ≤ count q c
  unfolding remove count
  count-remove_le p q [] = ground arith
  count-remove_le p q (x ∷ c) = ground (arith, count-remove_le p q c)

  pub count-remove_self : (p : E → Bool) (c : List E) → count p c ≤ 1 → count p (remove p c) ≡ 0
  unfolding remove count
  count-remove_self p [] h = refl
  count-remove_self p (x ∷ c) h = ground (arith, count-remove_self p c)

  module _ (p q : E → Bool) (f : E → E) (keeps : (e : E) → q (f e) ≡ q e) where
    pub count-modify : (c : List E) → count q (modify p f c) ≡ count q c
    unfolding modify count
    count-modify [] = refl
    count-modify (x ∷ c) = ground (arith, count-modify c, keeps x)

  pub find-modify_self :
      (p : E → Bool) (f : E → E) (c : List E)
      → ((e : E) → p (f e) ≡ p e)
      → find p (modify p f c) ≡ Option.map f (find p c)
  unfolding find modify
  find-modify_self p f [] keeps = refl
  find-modify_self p f (x ∷ c) keeps = ground (arith, find-modify_self p f c keeps, keeps x)

  -- Tests that never pass at one node do not disturb one another.
  module _ (p q : E → Bool) (apart : (e : E) → p e ≡ true → q e ≡ false) where
    pub find-modify_apart :
        (f : E → E) (c : List E) → ((e : E) → q (f e) ≡ q e) → find q (modify p f c) ≡ find q c
    unfolding find modify
    find-modify_apart f [] keeps = refl
    find-modify_apart f (x ∷ c) keeps =
        ground (arith, find-modify_apart f c keeps, keeps x, apart x)

    pub find-remove_apart : (c : List E) → find q (remove p c) ≡ find q c
    unfolding find remove
    find-remove_apart [] = refl
    find-remove_apart (x ∷ c) = ground (arith, find-remove_apart c, apart x)
