-- ===== src/Hashtable.antt =====
-- The chained hash tables of rkx_netuid.c and rkx_free_async.c (DEFINE_HASHTABLE with 6 bits).
-- The kernel's <linux/hashtable.h> is no code of this repository: its hash `hash_min(key, bits)` is
-- the parameter `HashMin`, and of its macros the model uses what they document, a table is an array
-- of 2 ^ bits chains, `hash_add_rcu` puts a node at the head of its key's chain, and
-- `hash_for_each_possible` visits the nodes of one chain in order.
mod Chain
pub mod Placed
pub mod Writes
pub mod Free
pub use Chain.*
unfoldable pub use Chain.{find, modify, remove, count}
use re_kernel_x.Base.{ℕ, ◌<◌, ◌++◌, List, [], ◌∷◌, replicate, get_or, set}

-- hash_min(key, RKX_..._HASH_BITS) with the index in range.
pub record HashMin : Type 0 where
  pub slot : ℕ → ℕ
  pub slot-lt : (key : ℕ) → slot key < 64

abbrev pub Table {ℓ} : Type ℓ → Type ℓ
Table E = List (List E)

module _ {ℓ} {E : Type ℓ} where
  -- hash_init: every chain is empty
  unfoldable pub hash_init : Table E
  hash_init = replicate 64 []

  abbrev pub bucket : Table E → ℕ → List E
  bucket t i = get_or t i []

  -- hash_add_rcu at slot `i`
  unfoldable pub hash_add : Table E → ℕ → E → Table E
  hash_add t i e = set t i (e ∷ bucket t i)

  -- hash_for_each_safe with hash_del_rcu and kfree_rcu in its body: the nodes in the order in which
  -- they are handed to kfree_rcu, and the table that is left.
  unfoldable pub free_chain : List E → List E → List E
  free_chain [] freed = freed
  free_chain (e ∷ c) freed = free_chain c (freed ++ e ∷ [])

  unfoldable pub free_all : Table E → List E → List E × Table E
  unfolding free_chain
  free_all [] freed = (freed, [])
  free_all (c ∷ t) freed = let (all, rest) = free_all t (free_chain c freed) in (all, [] ∷ rest)
