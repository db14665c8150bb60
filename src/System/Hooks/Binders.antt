-- ===== src/System/Hooks/Binders.antt =====
-- The events of the hooks on binder.
use re_kernel_x.Base.{
  ℕ, ◌+◌, ◌*◌, ◌%◌, ◌^◌, ◌≤◌, ◌<◌, ◌≡◌, ◌≢◌, refl, Bool, true, false, ◌&&◌, ◌||◌, not, List, [],
  ◌∷◌, Option, none, some, ◌>>=◌, arith, if◌then◌else◌, ◌==◌, ltb, length, length-take, take, drop,
  All, Bool-cases, inl, inr, ℤ, pos, eq_ℤ, signed32, minus_one, IsInt32, CString, codes,
}
use re_kernel_x.Event.{Event, binder_transaction, binder_reply, binder_free_buffer_full}
use re_kernel_x.Frozen.{Kernel, Task, is_frozen}
use re_kernel_x.Binder.{
  warn_ahead_space, BinderProc, TransactionData, parcel_offset, buf_data_size, token_size,
  copy_from_user, is_one_way, proc_event, send_if, frozen_target, alloc_hook,
}
use re_kernel_x.Binder.Token.{low_bytes, token_of, token_of-length}
use re_kernel_x.Binder.Hooks.{trans_report}
use re_kernel_x.Client.Decodes.{InRange}
use re_kernel_x.Client.Decodes.Reads.{signed32-IsInt32}
use re_kernel_x.System.Hooks.{IsClean, IsTask, IsTask?, IsProc?}

-- A name without a zero.
abbrev no_zero : CString → Bool
no_zero [] = true
no_zero (c ∷ cs) = not (c == 0) && no_zero cs

no_zero-All : (name : CString) → no_zero name ≡ true → All (λ c. c ≢ 0) name
no_zero-All [] e = tt
no_zero-All (c ∷ cs) e = (ground arith, no_zero-All cs (ground arith))

low_bytes-All : (xs : List ℕ) → All (λ c. c ≢ 0) (low_bytes xs)
unfolding low_bytes
low_bytes-All [] = tt
low_bytes-All (a ∷ []) = tt
low_bytes-All (a ∷ b ∷ r) = elim (Bool-cases (a == 0)) [
  | inl zero ↦ rw zero tt
  | inr other ↦ let first : a ≢ 0 = ground arith in rw other (first, low_bytes-All r)
]

proc_event-InRange :
    (type oneway : ℕ) (from to : Task) (code : ℤ) (name : CString)
    → type < 256
    → oneway < 256
    → IsTask from
    → IsTask to
    → IsInt32 code
    → length name < 140
    → All (λ c. c ≢ 0) name
    → InRange (proc_event type oneway from to code name)
proc_event-InRange type oneway from to code name t o f g c short clean =
    (omega arith, omega arith, f.0, f.1, g.0, g.1, c, short, clean)

send_if-IsClean : (ready : Bool) (e : Event) → InRange e → IsClean (some (send_if ready e))
send_if-IsClean true e range = range
send_if-IsClean false e range = tt

abbrev pub IsPair? : Option (Task × Task) → Type 0
IsPair? none = Unit {0}
IsPair? (some pair) = IsTask pair.0 × IsTask pair.1

if-IsPair? :
    (b : Bool) (from to : Task)
    → IsTask from
    → IsTask to
    → IsPair? (if b then some (from, to) else none)
if-IsPair? true from to f t = (f, t)
if-IsPair? false from to f t = tt

both-IsPair? :
    (to from : Option Task) (ok : Task → Task → Bool)
    → IsTask? to
    → IsTask? from
    → IsPair? (to >>= λ t. from >>= λ f. if ok t f then some (f, t) else none)
both-IsPair? none from ok t f = tt
both-IsPair? (some to) none ok t f = tt
both-IsPair? (some to) (some from) ok t f = if-IsPair? (ok to from) from to f t

module _ (k : Kernel) (ready : Bool) where
  pub frozen_target-IsPair? :
      (uid_ok : ℕ → Bool) (target : Option BinderProc) (proc : BinderProc)
      → IsProc? target
      → IsTask? proc.tsk
      → IsPair? (frozen_target k uid_ok target proc)
  frozen_target-IsPair? uid_ok none proc t p = tt
  frozen_target-IsPair? uid_ok (some target) proc t p =
      both-IsPair? target.tsk proc.tsk
        (λ to from. uid_ok to.uid && not (eq_ℤ proc.pid target.pid) && is_frozen k to) t p

  pub trans_report-IsClean :
      (pair : Option (Task × Task)) (tr : TransactionData)
      → IsPair? pair
      → tr.code < 2 ^ 32
      → IsClean (some (pair >>= trans_report k ready tr))
  trans_report-IsClean none tr is small = tt
  trans_report-IsClean (some (from, to)) tr is small = elim (Bool-cases (is_one_way tr.flags)) [
    | inr way ↦ rw way (
        send_if-IsClean ready _ (
          proc_event-InRange binder_transaction 0 from to minus_one (codes "SYNC_BINDER")
            (omega arith) (omega arith) is.0 is.1 (omega arith) (omega arith)
            (no_zero-All (codes "SYNC_BINDER") refl)))
    | inl way ↦ elim (Bool-cases (eq_ℤ (copy_from_user k tr) (pos 0))) [
      | inr failed ↦ rw (way, failed) tt
      | inl done ↦
          let buf : List ℕ = take (buf_data_size tr) tr.user_bytes in
          let small_buf : length buf ≤ token_size =
            ground (arith, length-take (buf_data_size tr) tr.user_bytes) in
          rw (way, done)
            (send_if-IsClean ready _ (
              proc_event-InRange binder_transaction 1 from to (signed32 tr.code) (token_of buf)
                (omega arith) (omega arith) is.0 is.1 (signed32-IsInt32 tr.code small)
                (omega (arith, token_of-length buf small_buf))
                (low_bytes-All (drop parcel_offset buf))))
    ]
  ]

  pub reply_report-IsClean :
      (pair : Option (Task × Task))
      → IsPair? pair
      → IsClean (
          some (
            pair >>= λ (from, to).
            send_if ready
              (proc_event binder_reply 0 from to minus_one (codes "SYNC_BINDER_REPLY"))))
  reply_report-IsClean none is = tt
  reply_report-IsClean (some (from, to)) is = send_if-IsClean ready _ (
      proc_event-InRange binder_reply 0 from to minus_one (codes "SYNC_BINDER_REPLY") (omega arith)
        (omega arith) is.0 is.1 (omega arith) (omega arith)
        (no_zero-All (codes "SYNC_BINDER_REPLY") refl))

  pub alloc_hook-IsClean :
      (size buffer_size : ℕ) (space : Option ℕ) (is_async : Bool) (p : Option Task) (current : Task)
      → IsTask? p
      → IsTask current
      → IsClean (some (alloc_hook k ready size buffer_size space is_async p current))
  unfolding alloc_hook
  alloc_hook-IsClean size buffer_size none is_async p current i j = tt
  alloc_hook-IsClean size buffer_size (some space) is_async none current i j = tt
  alloc_hook-IsClean size buffer_size (some space) is_async (some p) current i j =
      elim (Bool-cases (
        is_async
        && (ltb space (3 * (size + buffer_size) % 2 ^ 64) || ltb space warn_ahead_space)
        && is_frozen k p)) [
          | inr quiet ↦ rw quiet tt
          | inl full ↦ rw full (
              send_if-IsClean ready _ (
                proc_event-InRange binder_free_buffer_full 1 current p minus_one
                  (codes "FREE_BUFFER_FULL") (omega arith) (omega arith) j i (omega arith)
                  (omega arith) (no_zero-All (codes "FREE_BUFFER_FULL") refl)))
        ]
