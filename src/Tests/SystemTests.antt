-- ===== src/Tests/SystemTests.antt =====
-- Calls of the client and the tables of the kernel module after them.
use re_kernel_x.Base.{
  ◌≡◌, ◌≢◌, refl, true, List, Bool, [], ◌∷◌, none, some, pos, minus_one, inr, length,
  length-replicate, ℕ, arith, All,
}
use re_kernel_x.Genl.{Tables}
use re_kernel_x.Genl.Spec.{nothing}
use re_kernel_x.Genl.Refines.{Holds, init-Holds}
use re_kernel_x.Client.State.{Client}
use re_kernel_x.System.{monitor, unmonitor, set_rule, clear_rule, Turn, run}
use re_kernel_x.System.Replay.{replay}
use re_kernel_x.System.Turns.{run-Follows}
use re_kernel_x.Tests.Values.{sum_hash}
use re_kernel_x.Tests.CommandTests.{connected, answers, name}
use re_kernel_x.Tests.GenlTests.{tables}
use re_kernel_x.Tests.CoreTests.{plain_core, plain_core-Documented}

name_clean : All (λ c. c ≢ 0) name
name_clean = (ground arith, (ground arith, (ground arith, tt)))

abbrev pub turns : List Turn
turns =
    (record { call = monitor (pos 10234); sys = answers 128; alloc = true })
    ∷ (record { call = set_rule (some name) minus_one (pos 1); sys = answers 256; alloc = true })
    ∷ (record { call = set_rule (some name) (pos 3) (pos 9); sys = answers 256; alloc = true })
    ∷ (record { call = clear_rule none (pos 3); sys = answers 256; alloc = true })
    ∷ (record { call = unmonitor (pos 10234); sys = answers 128; alloc = true })
    ∷ []

run-Follows_example :
    (returned : List Bool) × (s : Client) × (t : Tables) × (run plain_core sum_hash connected tables
        turns
      ≡ some (returned, s, t))
    × (length returned ≡ 5)
    × Holds sum_hash t (replay nothing turns returned)
run-Follows_example =
    run-Follows plain_core plain_core-Documented sum_hash turns connected tables nothing
      (init-Holds sum_hash) (inr refl)
      (
        omega (arith, length-replicate {A = ℕ} 128 170),
        (
          (length-replicate {A = ℕ} 256 170, omega arith, name_clean, omega arith),
          (
            (length-replicate {A = ℕ} 256 170, omega arith, name_clean, omega arith),
            (tt, (length-replicate {A = ℕ} 128 170, tt)),
          ),
        ),
      )
