-- ===== src/Hashtable/Free.antt =====
-- Emptying a whole table: each node is given to kfree_rcu once, chain after chain.
use re_kernel_x.Base.{◌≡◌, List, [], ◌∷◌, ◌++◌, length, replicate, ap, ◌∙◌, sym}
use mathlib.Core.List.{flatten, append_assoc, append-nil}
use re_kernel_x.Hashtable.{Table, free_chain, free_all}

module _ {ℓ} {E : Type ℓ} where
  free_chain_lem : (c freed : List E) → free_chain c freed ≡ freed ++ c
  unfolding free_chain
  free_chain_lem [] freed = sym (append-nil freed)
  free_chain_lem (e ∷ c) freed = free_chain_lem c (freed ++ e ∷ []) ∙ append_assoc freed (e ∷ []) c

  pub free_all_lem :
      (t : Table E) (freed : List E)
      → free_all t freed ≡ (freed ++ flatten t, replicate (length t) [])
  unfolding free_all flatten
  free_all_lem [] freed = rw (append-nil freed)
  free_all_lem (c ∷ t) freed =
      rw (free_all_lem t (free_chain c freed), free_chain_lem c freed)
        (ap (λ f. (f, [] ∷ replicate (length t) [])) (append_assoc freed c (flatten t)))
