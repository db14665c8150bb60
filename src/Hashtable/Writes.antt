-- ===== src/Hashtable/Writes.antt =====
-- What adding, changing and removing a node does to a table that is `IsPlaced`.
use re_kernel_x.Base.{
  ℕ, ◌+◌, ◌≤◌, ◌<◌, ◌≡◌, refl, sym, ap, ◌≢◌, inl, inr, Bool, true, false, List, [], ◌∷◌, none, some,
  arith, if◌then◌else◌, ◌==◌, length, set, is_some, ==_iff, Bool-cases, Option-cases, length-set,
  get_or-set_self, get_or-set_ne, Eq,
}
use mathlib.Core.Option
use re_kernel_x.Hashtable.{Table, bucket, hash_add}
use re_kernel_x.Hashtable.Chain.{
  find, modify, remove, count, find-eq-none_iff, length-modify, length-remove, remove_absent,
  count-remove_le, count-remove_self, count-modify, find-modify_self, find-modify_apart,
  find-remove_apart,
}
use re_kernel_x.Hashtable.Placed.{Keyed, IsPlaced, view, holds_key, entries, entries-set, apart}

abbrev pub to_nat : Bool → ℕ
to_nat true = 1
to_nat false = 0

module _ {ℓ κ} {E : Type ℓ} {K : Type κ} ⦃eq : Eq K⦄ (kd : Keyed E K) where
  -- Chain `c` in the place of the chain of `k`.
  module _ (t : Table E) (valid : IsPlaced kd t) (k : K) (c : List E) where
    inside : kd.home k < length t
    inside = omega (arith, valid.width, kd.home-lt k)

    bucket-replace :
        (i : ℕ) → bucket (set t (kd.home k) c) i ≡ (if kd.home k == i then c else bucket t i)
    bucket-replace i = elim (Bool-cases (kd.home k == i)) [
      | inl e ↦ rw (e, ← (==_iff (kd.home k) i).0 e) (get_or-set_self t (kd.home k) c [] inside)
      | inr n ↦ rw n (get_or-set_ne t (kd.home k) i c [] (ground arith))
    ]

    pub replace-IsPlaced :
        ((q : K) → count (holds_key kd q) c ≤ 1)
        → ((q : K) → kd.home q ≢ kd.home k → count (holds_key kd q) c ≡ 0)
        → IsPlaced kd (set t (kd.home k) c)
    replace-IsPlaced few home = record {
      width = rw (length-set t (kd.home k) c) valid.width;
      once = λ q i. rw (bucket-replace i) (ground (arith, few q, valid.once q i));
      at_home = λ q i h. rw (bucket-replace i) (ground (arith, home q, valid.at_home q i));
    }

    pub view-replace :
        (q : K)
        → view kd (set t (kd.home k) c) q
          ≡ (if kd.home k == kd.home q then find (holds_key kd q) c else view kd t q)
    unfolding view
    view-replace q = rw (bucket-replace (kd.home q)) (ground arith)

    pub entries-replace :
        entries (set t (kd.home k) c) + length (bucket t (kd.home k)) ≡ entries t + length c
    entries-replace = entries-set t (kd.home k) c inside

  same_self : (k : K) → eq.same k k ≡ true
  same_self k = (eq.same_iff k k).1 refl

  same_home : (k q : K) → eq.same k q ≡ true → kd.home k ≡ kd.home q
  same_home k q h = ap kd.home ((eq.same_iff k q).0 h)

  module _ (t : Table E) (valid : IsPlaced kd t) (k : K) where
    abbrev chain : List E
    chain = bucket t (kd.home k)

    -- A write to the node under `k` that leaves its key.
    module _ (f : E → E) (keeps : (e : E) → kd.key_of (f e) ≡ kd.key_of e) where
      holds-keeps : (q : K) (e : E) → holds_key kd q (f e) ≡ holds_key kd q e
      holds-keeps q e = ap (eq.same q) (keeps e)

      pub modify-IsPlaced : IsPlaced kd (set t (kd.home k) (modify (holds_key kd k) f chain))
      modify-IsPlaced =
          replace-IsPlaced t valid k _
            (λ q.
              rw (count-modify (holds_key kd k) (holds_key kd q) f (holds-keeps q) chain)
                (valid.once q (kd.home k)))
            (λ q h.
              rw (count-modify (holds_key kd k) (holds_key kd q) f (holds-keeps q) chain)
                (valid.at_home q (kd.home k) h))

      pub view-modify :
          (q : K)
          → view kd (set t (kd.home k) (modify (holds_key kd k) f chain)) q
            ≡ (if eq.same k q then Option.map f (view kd t q) else view kd t q)
      unfolding view
      view-modify q = elim (Bool-cases (eq.same k q)) [
        | inl h ↦
            let e = sym ((eq.same_iff k q).0 h) in
            rw e (
              ground (
                arith,
                same_self k,
                view-replace t valid k (modify (holds_key kd k) f chain) k,
                find-modify_self (holds_key kd k) f chain (holds-keeps k),
              ))
        | inr n ↦ ground (
          arith,
          view-replace t valid k (modify (holds_key kd k) f chain) q,
          find-modify_apart (holds_key kd k) (holds_key kd q) (apart kd k q n) f chain
              (holds-keeps q),
        )
      ]

    pub remove-IsPlaced : IsPlaced kd (set t (kd.home k) (remove (holds_key kd k) chain))
    remove-IsPlaced =
        replace-IsPlaced t valid k _
          (λ q. omega (
            arith,
            valid.once q (kd.home k),
            count-remove_le (holds_key kd k) (holds_key kd q) chain,
          ))
          (λ q h. omega (
            arith,
            valid.at_home q (kd.home k) h,
            count-remove_le (holds_key kd k) (holds_key kd q) chain,
          ))

    pub view-remove :
        (q : K)
        → view kd (set t (kd.home k) (remove (holds_key kd k) chain)) q
          ≡ (if eq.same k q then none else view kd t q)
    unfolding view
    view-remove q = elim (Bool-cases (eq.same k q)) [
      | inl h ↦
          let e = sym ((eq.same_iff k q).0 h) in
          rw e (
            ground (
              arith,
              same_self k,
              view-replace t valid k (remove (holds_key kd k) chain) k,
              count-remove_self (holds_key kd k) chain (valid.once k (kd.home k)),
              find-eq-none_iff (holds_key kd k) (remove (holds_key kd k) chain),
            ))
      | inr n ↦ ground (
        arith,
        view-replace t valid k (remove (holds_key kd k) chain) q,
        find-remove_apart (holds_key kd k) (holds_key kd q) (apart kd k q n) chain,
      )
    ]

    pub entries-remove :
        entries (set t (kd.home k) (remove (holds_key kd k) chain)) + to_nat (is_some (view kd t k))
        ≡ entries t
    unfolding view
    entries-remove = elim (Option-cases (find (holds_key kd k) chain)) [
      | inl e ↦ rw e (
          omega (
            arith,
            entries-replace t valid k (remove (holds_key kd k) chain),
            ap length (remove_absent (holds_key kd k) chain e),
          ))
      | inr (x, e) ↦ rw e (
          omega (
            arith,
            entries-replace t valid k (remove (holds_key kd k) chain),
            length-remove (holds_key kd k) chain x e,
          ))
    ]

    pub entries-modify :
        (f : E → E) → entries (set t (kd.home k) (modify (holds_key kd k) f chain)) ≡ entries t
    entries-modify f = omega (
      arith,
      entries-replace t valid k (modify (holds_key kd k) f chain),
      length-modify (holds_key kd k) f chain,
    )

  -- A new node under a key that no node has.
  module _ (t : Table E) (valid : IsPlaced kd t) (e : E)
      (new : view kd t (kd.key_of e) ≡ none) where
    abbrev fresh_key : K
    fresh_key = kd.key_of e

    no_node :
        (q : K)
        → eq.same q fresh_key ≡ true
        → count (holds_key kd q) (bucket t (kd.home fresh_key)) ≡ 0
    unfolding view
    no_node q h =
        rw ((eq.same_iff q fresh_key).0 h)
          ((find-eq-none_iff (holds_key kd fresh_key) (bucket t (kd.home fresh_key))).0 new)

    pub hash_add-IsPlaced : IsPlaced kd (hash_add t (kd.home fresh_key) e)
    unfolding hash_add count
    hash_add-IsPlaced =
        replace-IsPlaced t valid fresh_key _
          (λ q. ground (arith, no_node q, valid.once q (kd.home fresh_key)))
          (λ q h. ground (arith, same_home q fresh_key, valid.at_home q (kd.home fresh_key) h))

    pub view-hash_add :
        (q : K)
        → view kd (hash_add t (kd.home fresh_key) e) q
          ≡ (if eq.same q fresh_key then some e else view kd t q)
    unfolding hash_add view find
    view-hash_add q = ground (
      arith,
      same_home q fresh_key,
      view-replace t valid fresh_key (e ∷ bucket t (kd.home fresh_key)) q,
    )

    pub entries-hash_add : entries (hash_add t (kd.home fresh_key) e) ≡ entries t + 1
    unfolding hash_add
    entries-hash_add =
        omega (arith, entries-replace t valid fresh_key (e ∷ bucket t (kd.home fresh_key)))
