-- ===== src/NetUid/Laws.antt =====
-- rkx_netuid.c against a set of uids: each operation keeps the table well formed and changes
-- exactly the membership that it is about.
use re_kernel_x.Base.{
  ℕ, ◌≡◌, refl, ◌↔◌, inl, inr, Bool, true, false, ◌&&◌, ◌||◌, not, [], ◌∷◌, arith, if◌then◌else◌,
  ◌==◌, Bool-cases, Option-cases, is_some, Eq, ==_iff, map,
}
use mathlib.Core.List.{flatten}
use re_kernel_x.Hashtable.{HashMin, Table, bucket, hash_init, find-passes}
use re_kernel_x.Hashtable.Placed.{Keyed, IsPlaced, view, hash_init-IsPlaced, view-hash_init}
use re_kernel_x.Hashtable.Writes.{remove-IsPlaced, view-remove, hash_add-IsPlaced, view-hash_add}
use re_kernel_x.Hashtable.Free.{free_all_lem}
use re_kernel_x.NetUid.{UidInfo, is_uid, monitored, add, del, destroy, init}

-- `uid` against a node's uid, in the order in which the code compares.
abbrev pub same_uid : ℕ → ℕ → Bool
same_uid k q = q == k

same_uid_iff : (k q : ℕ) → (same_uid k q ≡ true) ↔ (k ≡ q)
same_uid_iff k q = ground arith

instance abbrev uid_key : Eq ℕ
uid_key = record { same = same_uid; same_iff = same_uid_iff }

module _ (h : HashMin) where
  abbrev keyed : Keyed UidInfo ℕ
  keyed = record { key_of = λ e. e.uid; home = h.slot; home-lt = h.slot-lt }

  abbrev pub IsValid : Table UidInfo → Type 0
  IsValid t = IsPlaced keyed t

  pub init-IsValid : IsValid init
  unfolding init
  init-IsValid = hash_init-IsPlaced keyed

  pub monitored-init : (uid : ℕ) → monitored h init uid ≡ false
  unfolding init monitored view
  monitored-init uid = rw (view-hash_init keyed uid)

  monitored-view : (t : Table UidInfo) (uid : ℕ) → monitored h t uid ≡ is_some (view keyed t uid)
  unfolding monitored view
  monitored-view t uid = refl

  module _ (t : Table UidInfo) (valid : IsValid t) (uid : ℕ) where
    -- Adding a uid to a well-formed table keeps it well formed; afterwards exactly the old uids
    -- are monitored and the new one, which is missing only if it was not there and no memory was
    -- left for it.
    pub monitored-add :
        (alloc : Bool)
        → IsValid (add h t uid alloc)
          × ((v : ℕ) → monitored h (add h t uid alloc) v ≡ (monitored h t v || (v == uid && alloc)))
    unfolding add
    monitored-add alloc = elim (Option-cases (view keyed t uid)) [
      | inl e ↦ elim (Bool-cases alloc) [
        | inl y ↦
            rw (monitored-view t uid, e, y)
              (
                hash_add-IsPlaced keyed t valid (record { uid = uid }) e,
                λ v.
                    rw (monitored-view, monitored-view t v)
                      (rw (view-hash_add keyed t valid (record { uid = uid }) e v) (ground arith)),
              )
        | inr n ↦ rw (monitored-view t uid, e, n) (valid, λ v. ground arith)
      ]
      | inr (x, e) ↦ rw (monitored-view t uid, e) (valid, λ v. ground (arith, monitored-view t v))
    ]

    -- Deleting a uid from a well-formed table keeps it well formed; afterwards exactly the other
    -- uids are monitored, and one node is given to kfree_rcu if the uid was there, none
    -- otherwise.
    pub monitored-del :
        IsValid (del h t uid).0
        × ((v : ℕ) → monitored h (del h t uid).0 v ≡ (monitored h t v && not (v == uid)))
        × (map (λ e. e.uid) (del h t uid).1 ≡ (if monitored h t uid then uid ∷ [] else []))
    unfolding del view
    monitored-del = elim (Option-cases (view keyed t uid)) [
      | inl e ↦
          rw (e, del)
            (
              valid,
              λ v. elim (Bool-cases (v == uid)) [
                | inl m ↦ rw ((==_iff v uid).0 m) (ground (arith, monitored-view t uid))
                | inr n ↦ ground arith
              ],
              rw (monitored-view t uid, e),
            )
      | inr (x, e) ↦
          rw (e, del)
            (
              remove-IsPlaced keyed t valid uid,
              λ v.
                  rw (monitored-view t v, monitored-view _ v)
                    (ground (arith, view-remove keyed t valid uid v)),
              ground
                  (arith, find-passes (is_uid uid) (bucket t (h.slot uid)) x, monitored-view t uid),
            )
    ]

  -- Destroying a well-formed table gives every node in it to kfree_rcu, once, and leaves it as a
  -- new one is.
  pub destroy-frees_nodes : (t : Table UidInfo) → IsValid t → destroy t ≡ (init, flatten t)
  unfolding destroy init hash_init
  destroy-frees_nodes t valid = rw (free_all_lem t [], valid.width)
