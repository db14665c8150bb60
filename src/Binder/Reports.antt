-- ===== src/Binder/Reports.antt =====
-- When the hook of LKM-Source/rkx_binder.c on transactions reports one, and with what event.
use re_kernel_x.Base.{
  ℕ, ◌+◌, ◌*◌, ◌%◌, ◌^◌, ◌<◌, ◌≤◌, ◌≡◌, ◌≢◌, ◌↔◌, ◌⊎◌, inl, inr, refl, sym, ap, ◌∙◌, Bool, true,
  false, ◌&&◌, not, Option, none, some, ◌>>=◌, arith, ℤ, pos, eq_ℤ, eq_ℤ_iff, ltb, leb, min, take,
  Bool-cases, Option-cases, signed32, minus_one, codes, CString,
}
use re_kernel_x.Event.{Event, binder, min_app_uid}
use re_kernel_x.Frozen.{Kernel, Task, is_frozen, kernel_version}
use re_kernel_x.Frozen.Reasons.{Reason, is_frozen_iff}
use re_kernel_x.Binder.{
  BinderProc, TransactionData, buf_data_size, copy_from_user, is_one_way, frozen_target, trans_hook,
}
use re_kernel_x.Binder.Token.{token_of}
use re_kernel_x.Binder.Hooks.{HasBytes, trans_report, trans_hook_lem}

-- Everything of the buffer could be copied, and before that, since Linux 6.1, was a user's.
pub record Copied (k : Kernel) (tr : TransactionData) : Type 0 where
  pub whole : tr.left_over ≡ 0
  pub allowed : 6 * 2 ^ 16 + 2 ^ 8 ≤ k.version → tr.access_ok ≡ true

-- The event between two tasks: RKX_BINDER_TRANSACTION is 1.
abbrev pub between : Task → Task → ℕ → ℤ → CString → Event
between from to oneway code name = binder (record {
  binder_type = 1;
  oneway = oneway;
  from_pid = from.tgid;
  from_uid = from.uid;
  target_pid = to.tgid;
  target_uid = to.uid;
  code = code;
  rpc_name = name;
})

-- A synchronous transaction, or an asynchronous one whose buffer could be copied, of which the first
-- 140 bytes are looked at for a name.
abbrev pub Says : Kernel → TransactionData → Task → Task → Event → Type 0
Says k tr from to e =
    ((tr.flags % 2 ≡ 0) × (e ≡ between from to 0 minus_one (codes "SYNC_BINDER")))
    ⊎ ((tr.flags % 2 ≡ 1)
        × Copied k tr
        × (e
            ≡ between from to 1 (signed32 tr.code)
                (token_of (take (min 140 tr.data_size) tr.user_bytes))))

-- A transaction to another process, frozen, of an app, with the event of it.
pub record Reported (k : Kernel) (ready : Bool) (target : Option BinderProc) (proc : BinderProc)
    (tr : TransactionData) (e : Event) : Type 0 where
  pub callee : BinderProc
  pub from : Task
  pub to : Task
  pub is_target : target ≡ some callee
  pub calls : proc.tsk ≡ some from
  pub called : callee.tsk ≡ some to
  pub is_app : 10000 < to.uid
  pub apart : proc.pid ≢ callee.pid
  pub why : Reason k to
  pub connected : ready ≡ true
  pub event : Says k tr from to e

module _ (k : Kernel) where
  copy_from_user_iff :
      (tr : TransactionData) → (eq_ℤ (copy_from_user k tr) (pos 0) ≡ true) ↔ Copied k tr
  unfolding copy_from_user
  copy_from_user_iff tr = (
    λ e. record { whole = ground arith; allowed = λ new. ground arith },
    λ c. elim (Bool-cases (leb (kernel_version 6 1) k.version)) [
      | inl new ↦ ground (arith, c.whole, c.allowed (ground arith))
      | inr old ↦ ground (arith, c.whole)
    ],
  )

  inner_inj : (o : Option Event) (e : Event) → some o ≡ some (some e) → o ≡ some e
  inner_inj o e h = cc

  some_inj : (x y : Event) → some x ≡ some y → y ≡ x
  some_inj x y e = cc

  quiet : (tr : TransactionData) (from to : Task) → trans_report k false tr (from, to) ≡ none
  quiet tr from to = elim (Bool-cases (is_one_way tr.flags)) [
    | inr way ↦ rw way refl
    | inl way ↦ elim (Bool-cases (eq_ℤ (copy_from_user k tr) (pos 0))) [
      | inr failed ↦ rw (way, failed) refl
      | inl done ↦ rw (way, done) refl
    ]
  ]

  buf_size : (tr : TransactionData) → buf_data_size tr ≡ min 140 tr.data_size
  buf_size tr = ground arith

  -- The report of a synchronous transaction, and of an asynchronous one.
  sync_report :
      (tr : TransactionData) (from to : Task)
      → is_one_way tr.flags ≡ false
      → trans_report k true tr (from, to) ≡ some (between from to 0 minus_one (codes "SYNC_BINDER"))
  sync_report tr from to way = rw way refl

  async_report :
      (tr : TransactionData) (from to : Task)
      → is_one_way tr.flags ≡ true
      → eq_ℤ (copy_from_user k tr) (pos 0) ≡ true
      → trans_report k true tr (from, to)
        ≡ some (
            between from to 1
              (signed32 tr.code)
              (token_of (take (min 140 tr.data_size) tr.user_bytes)))
  async_report tr from to way done =
      rw (way, done)
        (ap (λ n. some (between from to 1 (signed32 tr.code) (token_of (take n tr.user_bytes))))
          (buf_size tr))

  async_none :
      (tr : TransactionData) (from to : Task)
      → is_one_way tr.flags ≡ true
      → eq_ℤ (copy_from_user k tr) (pos 0) ≡ false
      → trans_report k true tr (from, to) ≡ none
  async_none tr from to way failed = rw (way, failed) refl

  none-some : (o : Option Event) (e : Event) → o ≡ none → o ≡ some e → ⊥
  none-some o e a b = ground arith

  trans_report-Says :
      (ready : Bool) (tr : TransactionData) (from to : Task) (e : Event)
      → trans_report k ready tr (from, to) ≡ some e
      → (ready ≡ true) × Says k tr from to e
  trans_report-Says false tr from to e h = absurd (none-some _ e (quiet tr from to) h)
  trans_report-Says true tr from to e h = (
    refl,
    elim (Bool-cases (is_one_way tr.flags)) [
      | inr way ↦ inl (ground arith, some_inj _ e (sym (sync_report tr from to way) ∙ h))
      | inl way ↦ elim (Bool-cases (eq_ℤ (copy_from_user k tr) (pos 0))) [
        | inr failed ↦ absurd (none-some _ e (async_none tr from to way failed) h)
        | inl done ↦ inr (
          ground arith,
          (copy_from_user_iff tr).0 done,
          some_inj _ e (sym (async_report tr from to way done) ∙ h),
        )
      ]
    ],
  )

  Says-trans_report :
      (tr : TransactionData) (from to : Task) (e : Event)
      → Says k tr from to e
      → trans_report k true tr (from, to) ≡ some e
  Says-trans_report tr from to e (inl (way, is)) =
      sync_report tr from to (ground arith) ∙ ap some (sym is)
  Says-trans_report tr from to e (inr (way, copied, is)) =
      async_report tr from to (ground arith) ((copy_from_user_iff tr).1 copied) ∙ ap some (sym is)

  guards :
      (proc callee : BinderProc) (to : Task)
      → (ltb min_app_uid to.uid && not (eq_ℤ proc.pid callee.pid) && is_frozen k to ≡ true)
        ↔ ((10000 < to.uid) × (proc.pid ≢ callee.pid) × Reason k to)
  guards proc callee to = (
    λ e. (
      ground arith,
      λ same. absurd (ground (arith, (eq_ℤ_iff proc.pid callee.pid).1 same)),
      (is_frozen_iff k to).0 (ground arith),
    ),
    λ (app, apart, why). elim (Bool-cases (eq_ℤ proc.pid callee.pid)) [
      | inl same ↦ absurd (apart ((eq_ℤ_iff proc.pid callee.pid).0 same))
      | inr differ ↦ ground (arith, (is_frozen_iff k to).1 why)
    ],
  )

  module _ (ready : Bool) (proc : BinderProc) (tr : TransactionData) (e : Event) where
    there :
        (target : Option BinderProc)
        → (frozen_target k (λ uid. ltb min_app_uid uid) target proc >>= trans_report k ready tr)
          ≡ some e
        → Reported k ready target proc tr e
    there none h = absurd (ground arith)
    there (some callee) h = elim (Option-cases callee.tsk) [
      | inl no_to ↦ absurd (ground arith)
      | inr (to, is_to) ↦ elim (Option-cases proc.tsk) [
        | inl no_from ↦ absurd (ground arith)
        | inr (from, is_from) ↦
            elim (Bool-cases
              (ltb min_app_uid to.uid && not (eq_ℤ proc.pid callee.pid) && is_frozen k to)) [
                | inr stops ↦ absurd (ground arith)
                | inl goes ↦
                    let opened : (frozen_target k (λ uid. ltb min_app_uid uid) (some callee) proc
                          >>= trans_report k ready tr)
                        ≡ trans_report k ready tr (from, to) =
                      rw (is_to, is_from, goes) refl in
                    let (app, apart, why) = (guards proc callee to).0 goes in
                    let (up, says) = trans_report-Says ready tr from to e (sym opened ∙ h) in
                    record {
                      callee = callee;
                      from = from;
                      to = to;
                      is_target = refl;
                      calls = is_from;
                      called = is_to;
                      is_app = app;
                      apart = apart;
                      why = why;
                      connected = up;
                      event = says;
                    }
              ]
      ]
    ]

    back :
        (target : Option BinderProc)
        → Reported k ready target proc tr e
        → (frozen_target k (λ uid. ltb min_app_uid uid) target proc >>= trans_report k ready tr)
          ≡ some e
    back target r =
        let goes = (guards proc r.callee r.to).1 (r.is_app, r.apart, r.why) in
        rw (r.is_target, r.called, r.calls, goes, r.connected)
          (Says-trans_report tr r.from r.to e r.event)

  -- The hook on transactions never reads outside of what it copied. It hands over an event exactly if
  -- both processes have their tasks, the target's uid is above 10000, the processes differ, the target is
  -- frozen, for one of the reasons of rkx_is_frozen, and the netlink family is registered; of an
  -- asynchronous transaction only if its buffer could be copied. The event has the two tasks' pids and
  -- uids, each in its own field; and for a synchronous transaction code -1 and "SYNC_BINDER", for an
  -- asynchronous one its code and the name that stands in the parcel.
  pub trans_hook_iff :
      (ready : Bool) (target : Option BinderProc) (proc : BinderProc) (tr : TransactionData)
      → HasBytes tr
      → ((r : Option Event) × (trans_hook k ready target proc tr ≡ some r))
        × ((e : Event)
            → (trans_hook k ready target proc tr ≡ some (some e))
              ↔ Reported k ready target proc tr e)
  trans_hook_iff ready target proc tr bytes =
      let is = trans_hook_lem k ready target proc tr bytes in
      (
        (_, is),
        λ e. (
          λ h. there ready proc tr e target (inner_inj _ e (sym is ∙ h)),
          λ r. is ∙ ap some (back ready proc tr e target r),
        ),
      )
