-- ===== src/Tests/ConnectionTests.antt =====
-- The connection of the user-space end on concrete answers of the system.
use re_kernel_x.Base.{
  none, ℕ, ◌≡◌, refl, ◌⊎◌, inr, true, false, [], ◌∷◌, some, ℤ, pos, ltb_ℤ, minus_one,
}
use re_kernel_x.Client.State.{Client, initial, next_seq}
use re_kernel_x.Client.Connection.{
  Answers, connect, disconnect, set_callback, Poll, failed, ready, poll_event, round, tear_down,
}
use re_kernel_x.Client.Loading.{Library, on_load, jni_err}
use re_kernel_x.Client.Connection.Connects.{
  joined, refuses_early, Accepts, Refuses, connect_outcome,
}
use re_kernel_x.Client.Connection.Held.{IsHeld, initial-IsHeld}
use re_kernel_x.Client.Connection.Reach.{
  Steps, stop, followed, connects, disconnects, sets, enters, goes_on, breaks, leaves, idle,
  Steps-IsHeld,
}
use re_kernel_x.Client.Connection.Ends.{Disconnected, disconnect-ends}

abbrev answers : ℤ → Answers
answers membership = record {
  socket = pos 7;
  eventfd = pos 8;
  bind = pos 0;
  group = some (27, 3);
  membership = membership;
}

closes_on_refusal : connect initial (answers minus_one) ≡ (false, record initial { seq = 2 })
unfolding connect
closes_on_refusal = refl

abbrev online : Client
online = record initial {
  fd = pos 7;
  disconnect_fd = pos 8;
  family = 27;
  seq = 2;
  open_fds = pos 8 ∷ pos 7 ∷ [];
}

connects_to_the_family : connect initial (answers (pos 0)) ≡ (true, online)
unfolding connect
connects_to_the_family = refl

connect_outcome_example :
    let r = connect initial (answers (pos 0)) in
    ((ltb_ℤ minus_one (pos 0) ≡ false) × (r ≡ (true, initial)))
    ⊎ ((ltb_ℤ minus_one (pos 0) ≡ true)
        × (((refuses_early (answers (pos 0)) ≡ true) × (r ≡ (false, initial)))
            ⊎ (Refuses (answers (pos 0)) × (r ≡ (false, next_seq initial)))
            ⊎ ((fid : ℕ) × Accepts (answers (pos 0)) fid
                × (r ≡ (true, joined initial (answers (pos 0)) fid)))))
connect_outcome_example = connect_outcome initial (answers (pos 0))

abbrev quiet : Poll
quiet = ready false false (pos 0) []

abbrev woken : Poll
woken = ready true false (pos 0) []

-- A callback is set, the client connects, polls, disconnects, and its poller ends.
abbrev last : Client
last =
    tear_down
      (record (disconnect (connect (set_callback initial (some (true, 4))) (answers (pos 0))).1) {
        wakeups = 0;
      })

session : Steps initial idle last idle
unfolding connect disconnect set_callback round tear_down
session = followed (sets (some (true, 4))) (
    followed (connects (answers (pos 0))) (
      followed enters (
        followed (goes_on quiet [] refl)
          (followed disconnects (followed (breaks woken [] refl) (followed leaves stop))))))

Steps-IsHeld_example : IsHeld last
Steps-IsHeld_example = Steps-IsHeld session initial-IsHeld

online-IsHeld : IsHeld online
online-IsHeld = record { fds = inr (refl, refl, refl); refs = refl; strings = refl }

disconnect-ends_example :
    (s' : Client) × (poll_event (disconnect online) (failed ∷ woken ∷ []) ≡ some ([], true, s'))
    × Disconnected s'
unfolding disconnect
disconnect-ends_example =
    disconnect-ends online (failed ∷ woken ∷ []) online-IsHeld refl (tt, (refl, tt)) refl

abbrev unloaded : Library
unloaded = record {
  cb_class = none;
  mid_binder = none;
  mid_signal = none;
  mid_network = none;
  class_refs = [];
}

-- The class is there, but one of its methods is missing.
missing_method :
    (on_load unloaded (record {
      has_env = true;
      has_class = true;
      new_ref = 1;
      binder_id = some 10;
      signal_id = none;
      network_id = some 12;
    })).0
    ≡ jni_err
unfolding on_load
missing_method = refl
