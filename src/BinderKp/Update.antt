-- ===== src/BinderKp/Update.antt =====
-- Which queued transaction rk_binder_find_outdated_transaction_ilocked picks.
use re_kernel_x.Base.{
  ℕ, zero, suc, ◌≡◌, refl, ap, ◌↔◌, ◌⊎◌, inl, inr, true, false, List, [], ◌∷◌, ◌++◌, Option, none,
  some, arith, eq_ℤ_iff, Bool-cases, All, ◌>>=◌,
}
use re_kernel_x.Binder.{is_one_way}
use re_kernel_x.FreeAsync.{by_code, by_data}
use re_kernel_x.BinderKp.{
  Txn, Copier, Work, transaction, other_work, can_update, find_outdated, unlink, same_tsk,
}
use re_kernel_x.BinderKp.Equal.{CopiesBytes, IsFull, buffer_data_equal_iff}

-- A queued transaction that a new one supersedes under a strategy.
pub record Supersedes (new old : Txn) (strategy : ℕ) : Type 0 where
  pub one_way : is_one_way new.flags ≡ true
  pub same_flags : old.flags ≡ new.flags
  pub same_target : same_tsk old.to_tsk new.to_tsk ≡ true
  pub same_code : old.code ≡ new.code
  pub same_sender : old.buffer.pid ≡ new.buffer.pid
  pub same_ptr : old.buffer.node_ptr ≡ new.buffer.node_ptr
  pub same_cookie : old.buffer.node_cookie ≡ new.buffer.node_cookie
  pub no_objects : (old.buffer.offsets_size ≡ 0) × (new.buffer.offsets_size ≡ 0)
  pub by_strategy :
      (strategy ≡ by_code) ⊎ ((strategy ≡ by_data) × (old.buffer.contents ≡ new.buffer.contents))

module _ (copy : Copier) (new old : Txn) (copies_new : CopiesBytes copy new.buffer)
    (copies_old : CopiesBytes copy old.buffer) (full_new : IsFull new.buffer)
    (full_old : IsFull old.buffer) where
  -- If the buffers of two transactions hold as many bytes as they say, and can be copied, the
  -- queued one is superseded exactly if both are one-way calls with the same flags, to the same
  -- process, object and method, from the same sender and without objects in them, and the
  -- strategy is "by code", or "by data" with the same bytes in both.
  pub can_update_iff :
      (strategy : ℕ)
      → (can_update (some copy) old new strategy ≡ true) ↔ Supersedes new old strategy
  unfolding can_update
  can_update_iff strategy =
      let bytes =
        buffer_data_equal_iff copy old.buffer new.buffer copies_old copies_new full_old full_new in
      let pids = eq_ℤ_iff old.buffer.pid new.buffer.pid in
      (λ h. ground (arith, bytes, pids), λ s. ground (arith, bytes, pids))

-- What the search returns comes from the node at hand or from one behind it.
behind :
    (r : Option (ℕ × Txn)) (i : ℕ) (old : Txn)
    → ◌≡◌ {A = Option (ℕ × Txn)} (r >>= λ (i, q). some (suc i, q)) (some (i, old))
    → (j : ℕ) × (i ≡ suc j) × (r ≡ some (j, old))
behind none i old e = absurd (ground arith)
behind (some (j, q)) i old e = (j, ground arith, ground arith)

here :
    (q : Txn) (i : ℕ) (old : Txn)
    → ◌≡◌ {A = Option (ℕ × Txn)} (some (zero, q)) (some (i, old))
    → (i ≡ zero) × (q ≡ old)
here q i old e = (ground arith, cc)

module _ (copy : Option Copier) (new : Txn) (strategy : ℕ) where
  -- No transaction among the work is superseded.
  abbrev pub Keeps : Work → Type 0
  Keeps other_work = Unit {0}
  Keeps (transaction q) = can_update copy q new strategy ≡ false

  -- The queue before and after a superseded transaction `old` is taken out of it: the first one.
  pub record Takes (old : Txn) (before after : List Work) : Type 0 where
    pub front : List Work
    pub back : List Work
    pub before_eq : before ≡ front ++ transaction old ∷ back
    pub after_eq : after ≡ front ++ back
    pub first : All Keeps front
    pub superseded : can_update copy old new strategy ≡ true

  pub find_outdated-none :
      (ws : List Work) → find_outdated copy new ws strategy ≡ none → All Keeps ws
  unfolding find_outdated
  find_outdated-none [] e = tt
  find_outdated-none (other_work ∷ ws) e = (tt, find_outdated-none ws (ground arith))
  find_outdated-none (transaction q ∷ ws) e = (ground arith, find_outdated-none ws (ground arith))

  later :
      (w : Work) (old : Txn) (ws after : List Work)
      → Keeps w
      → Takes old ws after
      → Takes old (w ∷ ws) (w ∷ after)
  later w old ws after keeps t = record {
    front = w ∷ t.front;
    back = t.back;
    before_eq = ap (λ l. w ∷ l) t.before_eq;
    after_eq = ap (λ l. w ∷ l) t.after_eq;
    first = (keeps, t.first);
    superseded = t.superseded;
  }

  pub find_outdated-some :
      (ws : List Work) (i : ℕ) (old : Txn)
      → find_outdated copy new ws strategy ≡ some (i, old)
      → Takes old ws (unlink i ws)
  unfolding find_outdated unlink
  find_outdated-some [] i old e = absurd (ground arith)
  find_outdated-some (other_work ∷ ws) i old e =
      let (j, p, f) = behind (find_outdated copy new ws strategy) i old e in
      rw p (later other_work old ws (unlink j ws) tt (find_outdated-some ws j old f))
  find_outdated-some (transaction q ∷ ws) i old e =
      elim (Bool-cases (can_update copy q new strategy)) [
        | inl hit ↦
            let (p, f) = here q i old (rw hit at e) in
            rw (p, ← f)
              (record {
                front = [];
                back = ws;
                before_eq = refl;
                after_eq = refl;
                first = tt;
                superseded = hit;
              })
        | inr miss ↦
            let (j, p, f) = behind (find_outdated copy new ws strategy) i old (rw miss at e) in
            rw p (later (transaction q) old ws (unlink j ws) miss (find_outdated-some ws j old f))
      ]
