-- ===== src/NetUid.antt =====
-- LKM-Source/rkx_netuid.c: the set of user ids whose inbound packets are reported.
-- The mutex makes each writer one step; a reader under rcu_read_lock sees the table between two
-- steps. kmalloc's outcome is an argument.
pub mod Laws
use re_kernel_x.Base.{
  ℕ, Bool, true, false, List, [], ◌∷◌, Option, none, some, if◌then◌else◌, ◌==◌, set, is_some,
}
use re_kernel_x.Hashtable.{HashMin, Table, bucket, hash_init, hash_add, free_all, find, remove}

pub record UidInfo : Type 0 where
  pub uid : ℕ

abbrev pub is_uid : ℕ → UidInfo → Bool
is_uid uid e = e.uid == uid

module _ (h : HashMin) where
  unfoldable pub monitored : Table UidInfo → ℕ → Bool
  monitored t uid = is_some (find (is_uid uid) (bucket t (h.slot uid)))

  -- kmalloc is called only if the uid is not there.
  unfoldable pub add : Table UidInfo → ℕ → Bool → Table UidInfo
  add t uid alloc =
      let found = monitored t uid in
      if found then t else if alloc then hash_add t (h.slot uid) (record { uid = uid }) else t

  -- The list holds the node given to kfree_rcu.
  unfoldable pub del : Table UidInfo → ℕ → Table UidInfo × List UidInfo
  del t uid =
      let chain = bucket t (h.slot uid) in
      elim (find (is_uid uid) chain) [
        | some e ↦ (set t (h.slot uid) (remove (is_uid uid) chain), e ∷ [])
        | none ↦ (t, [])
      ]

unfoldable pub destroy : Table UidInfo → Table UidInfo × List UidInfo
destroy t = let (freed, rest) = free_all t [] in (rest, freed)

unfoldable pub init : Table UidInfo
init = hash_init
