-- ===== src/Client/Connection/Held.antt =====
-- What the client holds: the descriptors of its globals and its callback; each method keeps that.
use re_kernel_x.Base.{
  ℕ, ◌≡◌, refl, ap, ◌∙◌, ◌⊎◌, inl, inr, Bool, true, false, List, [], ◌∷◌, Option, none, some, arith,
  ◌==◌, Bool-cases, Option-cases, pos, ltb_ℤ,
}
use re_kernel_x.Client.State.{Client, initial, next_seq}
use re_kernel_x.Client.Events.{Call}
use re_kernel_x.Client.Connection.Connects.{remove_both, connect_outcome}
use re_kernel_x.Client.Connection.{
  remove_ref, set_callback, Answers, connect, disconnect, Poll, failed, ready, receive, is_off,
  polled, round, tear_down,
}

-- The descriptors that are open are those of the globals: both or none.
abbrev pub HoldsFds : Client → Type 0
HoldsFds s =
    ((ltb_ℤ s.fd (pos 0) ≡ true) × (ltb_ℤ s.disconnect_fd (pos 0) ≡ true) × (s.open_fds ≡ []))
    ⊎ ((ltb_ℤ s.fd (pos 0) ≡ false)
        × (ltb_ℤ s.disconnect_fd (pos 0) ≡ false)
        × (s.open_fds ≡ s.disconnect_fd ∷ s.fd ∷ []))

abbrev pub refs_of : Option ℕ → List ℕ
refs_of none = []
refs_of (some ref) = ref ∷ []

-- No descriptor, no reference and no string is lost, and none is used after it was given back.
pub record IsHeld (s : Client) : Type 0 where
  pub fds : HoldsFds s
  pub refs : s.global_refs ≡ refs_of s.callback
  pub strings : s.strings ≡ 0

pub initial-IsHeld : IsHeld initial
initial-IsHeld = record { fds = inl (refl, refl, refl); refs = refl; strings = refl }

remove_only : (ref : ℕ) → remove_ref ref (ref ∷ []) ≡ []
remove_only ref = let same : ref == ref ≡ true = ground arith in rw same refl

remove_second : (ref old : ℕ) → remove_ref old (ref ∷ old ∷ []) ≡ ref ∷ []
remove_second ref old = elim (Bool-cases (old == ref)) [
  | inl same ↦ let equal : old ≡ ref = ground arith in rw same (ap (λ r. r ∷ []) equal)
  | inr differ ↦ rw differ (ap (λ l. ref ∷ l) (remove_only old))
]

-- A step that changes neither what is held nor the globals.
pub keeps :
    (s s' : Client)
    → s'.fd ≡ s.fd
    → s'.disconnect_fd ≡ s.disconnect_fd
    → s'.open_fds ≡ s.open_fds
    → s'.callback ≡ s.callback
    → s'.global_refs ≡ s.global_refs
    → s'.strings ≡ s.strings
    → IsHeld s
    → IsHeld s'
keeps s s' fd dfd fds cb refs strings held = record {
  fds = rw (fd, dfd, fds) held.fds;
  refs = rw (cb, refs) held.refs;
  strings = strings ∙ held.strings;
}

pub connect-IsHeld : (s : Client) (sys : Answers) → IsHeld s → IsHeld (connect s sys).1
connect-IsHeld s sys held = elim (connect_outcome s sys) [
  | inl (on, e) ↦ rw e held
  | inr (off, inl (refused, e)) ↦ rw e held
  | inr (off, inr (inl (refused, e))) ↦
      rw e (keeps s (next_seq s) refl refl refl refl refl refl held)
  | inr (off, inr (inr (fid, (early, gid, known, accepted), e))) ↦ rw e (record {
    fds = inr (
      ground (arith, early),
      ground (arith, early),
      elim held.fds [
        | inl (a, b, none_open) ↦ ap (λ l. sys.eventfd ∷ sys.socket ∷ l) none_open
        | inr (valid, b, c) ↦ absurd (ground arith)
      ],
    );
    refs = held.refs;
    strings = held.strings;
  })
]

pub tear_down-IsHeld : (s : Client) → IsHeld s → IsHeld (tear_down s)
unfolding tear_down
tear_down-IsHeld s held = elim held.fds [
  | inl (a, b, fds) ↦
      rw (a, b) (record { fds = inl (refl, refl, fds); refs = held.refs; strings = held.strings })
  | inr (a, b, fds) ↦
      rw (a, b)
        (record {
          fds = inl (refl, refl, rw fds (remove_both s.fd s.disconnect_fd []));
          refs = held.refs;
          strings = held.strings;
        })
]

pub disconnect-IsHeld : (s : Client) → IsHeld s → IsHeld (disconnect s)
unfolding disconnect
disconnect-IsHeld s held = elim (Bool-cases (ltb_ℤ s.disconnect_fd (pos 0))) [
  | inl off ↦ rw off held
  | inr on ↦ rw on (record { fds = held.fds; refs = held.refs; strings = held.strings })
]

pub set_callback-IsHeld :
    (s : Client) (cb : Option (Bool × ℕ)) → IsHeld s → IsHeld (set_callback s cb)
unfolding set_callback
set_callback-IsHeld s none held = elim (Option-cases s.callback) [
  | inl empty ↦
      rw empty
        (record { fds = held.fds; refs = held.refs ∙ ap refs_of empty; strings = held.strings })
  | inr (old, e) ↦ rw e (record {
    fds = held.fds;
    refs = ap (remove_ref old) (held.refs ∙ ap refs_of e) ∙ remove_only old;
    strings = held.strings;
  })
]
set_callback-IsHeld s (some (false, ref)) held = held
set_callback-IsHeld s (some (true, ref)) held = elim (Option-cases s.callback) [
  | inl empty ↦ rw empty (record {
    fds = held.fds;
    refs = ap (λ l. ref ∷ l) (held.refs ∙ ap refs_of empty);
    strings = held.strings;
  })
  | inr (old, e) ↦ rw e (record {
    fds = held.fds;
    refs = ap (λ l. remove_ref old (ref ∷ l)) (held.refs ∙ ap refs_of e) ∙ remove_second ref old;
    strings = held.strings;
  })
]

-- What a round of the poller leaves: the state, or the state with the counter of the eventfd read.
abbrev state_of : Client → Option (List Call × Bool × Client) → Client
state_of s none = s
state_of s (some r) = r.2

abbrev Leaves : Client → Client → Type 0
Leaves s s' = (s' ≡ s) ⊎ (s' ≡ record s { wakeups = 0 })

polled-Leaves : (s : Client) (poll : Poll) → Leaves s (state_of s (polled s poll))
polled-Leaves s failed = inl refl
polled-Leaves s (ready true readable rlen rbuf) = inr refl
polled-Leaves s (ready false false rlen rbuf) = inl refl
polled-Leaves s (ready false true rlen rbuf) =
    elim (Option-cases (receive s rlen rbuf s.callback)) [
      | inl faults ↦ inl (rw faults refl)
      | inr (calls, e) ↦ inl (rw e refl)
    ]

round-Leaves : (s : Client) (poll : Poll) → Leaves s (state_of s (round s poll))
unfolding round
round-Leaves s poll = elim (Bool-cases (is_off s)) [
  | inl off ↦ inl (rw off refl)
  | inr on ↦ rw on (polled-Leaves s poll)
]

Leaves-IsHeld : (s s' : Client) → Leaves s s' → IsHeld s → IsHeld s'
Leaves-IsHeld s s' (inl e) held = rw e held
Leaves-IsHeld s s' (inr e) held =
    rw e (keeps s (record s { wakeups = 0 }) refl refl refl refl refl refl held)

pub round-IsHeld :
    (s s' : Client) (poll : Poll) (calls : List Call) (go : Bool)
    → round s poll ≡ some (calls, go, s')
    → IsHeld s
    → IsHeld s'
round-IsHeld s s' poll calls go e held =
    let out : state_of s (round s poll) ≡ s' = ap (state_of s) e in
    rw (← out) (Leaves-IsHeld s (state_of s (round s poll)) (round-Leaves s poll) held)
