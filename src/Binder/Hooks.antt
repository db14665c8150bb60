-- ===== src/Binder/Hooks.antt =====
-- What the hooks of rkx_binder.c report, and of whom.
use re_kernel_x.Base.{
  ℕ, ◌≤◌, ◌<◌, ◌≡◌, inl, inr, Bool, true, not, List, Option, none, some, ◌>>=◌, arith,
  if◌then◌else◌, ltb, length, take, pos, eq_ℤ, signed32, minus_one, codes, Bool-cases, Option-cases,
  length-take, take_all,
}
use re_kernel_x.Event.{Event, binder_transaction, min_app_uid, max_system_uid}
use re_kernel_x.Frozen.{Kernel, Task}
use re_kernel_x.Binder.{
  BinderProc, TransactionData, token_name, token_size, buf_data_size, copy_from_user, proc_event,
  send_if, frozen_target, reply_hook, trans_hook, async_event, is_one_way,
}
use re_kernel_x.Binder.Token.{token_of, token_of-length, token_name_lem}

-- What the kernel promises of the buffer of a transaction: it has as many bytes as are copied.
abbrev pub HasBytes : TransactionData → Type 0
HasBytes tr = buf_data_size tr ≤ length tr.user_bytes

module _ (k : Kernel) (ready : Bool) where
  -- The event of a transaction between two tasks that are to be reported.
  abbrev pub trans_report : TransactionData → Task × Task → Option Event
  trans_report tr (from, to) =
      if not (is_one_way tr.flags)
      then send_if ready (proc_event binder_transaction 0 from to minus_one (codes "SYNC_BINDER"))
      else if eq_ℤ (copy_from_user k tr) (pos 0)
      then send_if ready (
          proc_event binder_transaction 1 from to (signed32 tr.code)
            (token_of (take (buf_data_size tr) tr.user_bytes)))
      else none

  async_event_lem :
      (from to : Task) (tr : TransactionData)
      → HasBytes tr
      → is_one_way tr.flags ≡ true
      → async_event k ready from to tr ≡ some (trans_report tr (from, to))
  unfolding async_event
  async_event_lem from to tr h way =
      let n : ℕ = buf_data_size tr in
      let buf : List ℕ = take n tr.user_bytes in
      let size : length buf ≡ n = omega (arith, length-take n tr.user_bytes) in
      let small : n ≤ token_size = ground arith in
      elim (Bool-cases (eq_ℤ (copy_from_user k tr) (pos 0))) [
        | inr failed ↦ rw (way, failed)
        | inl done ↦
            let e : token_name buf n ≡ some (token_of buf) =
              rw size at (token_name_lem buf (omega arith)) in
            rw (
              way,
              done,
              e,
              take_all (139) (token_of buf) (omega (arith, token_of-length buf (omega arith))),
            )
      ]

  -- The hook on transactions never reads outside of what it copied. It reports a transaction exactly
  -- if both tasks are there, the target's uid is above 10000, the processes differ and the target is
  -- frozen: a synchronous one always, an asynchronous one if its buffer could be copied, with the
  -- name that stands in the parcel.
  pub trans_hook_lem :
      (target : Option BinderProc) (proc : BinderProc) (tr : TransactionData)
      → HasBytes tr
      → trans_hook k ready target proc tr
        ≡ some (frozen_target k (λ uid. ltb min_app_uid uid) target proc >>= trans_report tr)
  unfolding trans_hook
  trans_hook_lem target proc tr h =
      elim (Option-cases (frozen_target k (λ uid. ltb min_app_uid uid) target proc)) [
        | inl e ↦ rw (e, trans_hook)
        | inr ((from, to), e) ↦
            rw (e, trans_hook)
              (elim (Bool-cases (is_one_way tr.flags)) [
                | inl way ↦ rw (way, async_event_lem from to tr h way, way)
                | inr way ↦ rw way
              ])
      ]

  -- Neither the hook on transactions nor the one on replies reports a target process whose uid is above
  -- 2000 and at most 10000, whoever calls it.
  pub unreported_between :
      (target proc : BinderProc) (to : Task) (tr : TransactionData)
      → target.tsk ≡ some to
      → max_system_uid < to.uid
      → to.uid ≤ min_app_uid
      → (trans_hook k ready (some target) proc tr ≡ some none)
        × (reply_hook k ready (some target) proc ≡ none)
  unfolding trans_hook reply_hook
  unreported_between target proc to tr e lo hi = (ground arith, ground arith)
