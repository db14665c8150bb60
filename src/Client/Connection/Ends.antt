-- ===== src/Client/Connection/Ends.antt =====
-- After disconnect, the poller ends.
use re_kernel_x.Base.{
  suc, ◌≡◌, refl, ap, ◌∙◌, inl, inr, Bool, true, false, List, [], ◌∷◌, some, arith, ltb, All, pos,
  ltb_ℤ, minus_one,
}
use mathlib.Core.Path.{subst}
use re_kernel_x.Client.State.{Client, remove_fd}
use re_kernel_x.Client.Connection.Connects.{remove_both}
use re_kernel_x.Client.Connection.Held.{IsHeld}
use re_kernel_x.Client.Connection.{
  disconnect, Poll, failed, ready, is_off, round, tear_down, poll_event,
}

-- What poll documents of the eventfd: it is readable as long as its counter is not zero.
abbrev pub Truthful : Client → Poll → Type 0
Truthful s failed = Unit {0}
Truthful s (ready woken readable rlen rbuf) = woken ≡ ltb 0 s.wakeups

abbrev pub has_ready : List Poll → Bool
has_ready [] = false
has_ready (failed ∷ ps) = has_ready ps
has_ready (ready woken readable rlen rbuf ∷ ps) = true

-- A client without a connection that holds nothing.
abbrev pub Disconnected : Client → Type 0
Disconnected s =
    (s.fd ≡ minus_one) × (s.disconnect_fd ≡ minus_one) × (s.family ≡ 0) × (s.open_fds ≡ [])

tear_down-Disconnected :
    (s : Client)
    → ltb_ℤ s.fd (pos 0) ≡ false
    → ltb_ℤ s.disconnect_fd (pos 0) ≡ false
    → s.open_fds ≡ s.disconnect_fd ∷ s.fd ∷ []
    → Disconnected (tear_down s)
unfolding tear_down
tear_down-Disconnected s a b fds =
    rw (a, b)
      (
        refl,
        refl,
        refl,
        ap (λ l. remove_fd s.disconnect_fd (remove_fd s.fd l)) fds
            ∙ remove_both s.fd s.disconnect_fd [],
      )

signalled-ends :
    (s : Client) (polls : List Poll)
    → ltb_ℤ s.fd (pos 0) ≡ false
    → ltb_ℤ s.disconnect_fd (pos 0) ≡ false
    → s.open_fds ≡ s.disconnect_fd ∷ s.fd ∷ []
    → ltb 0 s.wakeups ≡ true
    → All (Truthful s) polls
    → has_ready polls ≡ true
    → (s' : Client) × (poll_event s polls ≡ some ([], true, s')) × Disconnected s'
unfolding poll_event round
signalled-ends s [] a b fds woken truthful there = absurd (ground arith)
signalled-ends s (failed ∷ ps) a b fds woken truthful there =
    let (s', e, done) = signalled-ends s ps a b fds woken truthful.1 there in
    let on : is_off s ≡ false = rw (a, b) refl in (s', rw (on, e) refl, done)
signalled-ends s (ready w readable rlen rbuf ∷ ps) a b fds woken truthful there =
    let on : is_off s ≡ false = rw (a, b) refl in
    let wakes : w ≡ true = truthful.0 ∙ woken in
    (
      tear_down (record s { wakeups = 0 }),
      rw (on, wakes) refl,
      tear_down-Disconnected (record s { wakeups = 0 }) a b fds,
    )

-- If poll reports the eventfd as its documentation says, then, once disconnect was called on a client
-- with a connection that holds what it should, pollEvent ends as soon as poll returns without an error,
-- whatever came in before, and makes no call of the callback any more; both descriptors are closed.
pub disconnect-ends :
    (s : Client) (polls : List Poll)
    → IsHeld s
    → ltb_ℤ s.fd (pos 0) ≡ false
    → All (Truthful (disconnect s)) polls
    → has_ready polls ≡ true
    → (s' : Client) × (poll_event (disconnect s) polls ≡ some ([], true, s')) × Disconnected s'
unfolding disconnect
disconnect-ends s polls held on truthful there = elim held.fds [
  | inl (off, b, c) ↦ absurd (ground arith)
  | inr (a, b, fds) ↦
      let signalled : disconnect s ≡ record s { wakeups = suc s.wakeups } = rw b refl in
      let (s', e, done) =
        signalled-ends (record s { wakeups = suc s.wakeups }) polls a b fds (ground arith)
          (subst (λ t. All (Truthful t) polls) signalled truthful) there in
      (s', ap (λ t. poll_event t polls) signalled ∙ e, done)
]
