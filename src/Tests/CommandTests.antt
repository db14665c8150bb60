-- ===== src/Tests/CommandTests.antt =====
-- The commands of the user-space end on concrete inputs.
use re_kernel_x.Base.{
  ℕ, ◌<◌, ◌≤◌, ◌≡◌, refl, ◌⊎◌, true, false, [], ◌∷◌, some, none, arith, length, replicate,
  length-replicate, pos, negsuc, eq_ℤ, CString,
}
use re_kernel_x.Client.State.{Client, initial, next_seq}
use re_kernel_x.Client.Commands.{
  Answers, monitor_net, add_monitor_net, begin, end_message, add_free_async,
}
use re_kernel_x.Client.Commands.Format.{add_attrs, request, refuses_rule}
use re_kernel_x.Client.Commands.Outcome.{after}
use re_kernel_x.Client.Commands.Rules.{add_free_async_outcome, add_free_async_overflow}
use re_kernel_x.Nla.Builder.{new, put_genl_header, put, finish}

abbrev pub connected : Client
connected = record initial {
  fd = pos 7;
  disconnect_fd = pos 8;
  family = 27;
  open_fds = pos 7 ∷ pos 8 ∷ [];
}

-- The system that sends everything.
abbrev pub answers : ℕ → Answers
answers cap = record {
  socket = pos 9;
  stack = replicate cap 170;
  has_chars = true;
  sendto = λ message. pos (length message);
}

sends_the_uid :
    add_monitor_net connected (answers 128) (pos 10234)
    ≡ some (
      true,
      record connected {
        seq = 2;
        sent =
            (28 ∷ 0 ∷ 0 ∷ 0 ∷ 27 ∷ 0 ∷ 1 ∷ 0 ∷ 1 ∷ 0 ∷ 0 ∷ 0 ∷ 0 ∷ 0 ∷ 0 ∷ 0 ∷ 2 ∷ 1 ∷ 0 ∷ 0 ∷ 8 ∷ 0
              ∷ 40 ∷ 0 ∷ 250 ∷ 39 ∷ 0 ∷ 0 ∷ [])
            ∷ [];
      },
    )
unfolding monitor_net begin end_message new put_genl_header put finish
sends_the_uid = refl

abbrev pub name : CString
name = 97 ∷ 46 ∷ 73 ∷ []

add_free_async_outcome_example :
    let message = request connected 4 (add_attrs name (negsuc 0) (pos 1)) in
    let r = add_free_async connected (answers 256) (some name) (negsuc 0) (pos 1) in
    (add_free_async connected (answers 256) none (negsuc 0) (pos 1) ≡ some (false, connected))
    × (((refuses_rule connected (answers 256) name (negsuc 0) ≡ true)
          × (r ≡ some (false, connected)))
        ⊎ ((refuses_rule connected (answers 256) name (negsuc 0) ≡ false)
            × ((215 < length name) × (r ≡ some (false, next_seq connected))
                ⊎ (length name ≤ 215)
                  × (r
                      ≡ some (
                        eq_ℤ (pos (length message)) (pos (length message)),
                        after connected message,
                      )))))
add_free_async_outcome_example =
    add_free_async_outcome connected (answers 256) name (negsuc 0) (pos 1)
      (length-replicate {A = ℕ} 256 170) (omega arith)

-- A name of 65530 bytes.
abbrev endless : CString
endless = 97 ∷ replicate 65529 97

endless-length : length endless ≡ 65530
endless-length = omega (arith, length-replicate {A = ℕ} 65529 97)

add_free_async_overflow_example :
    add_free_async connected (answers 256) (some endless) (pos 1) (pos 1) ≡ none
add_free_async_overflow_example =
    add_free_async_overflow connected (answers 256) endless (pos 1) (pos 1)
      (length-replicate {A = ℕ} 256 170) (omega (arith, endless-length))
      (omega (arith, endless-length)) refl
