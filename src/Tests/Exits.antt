-- ===== src/Tests/Exits.antt =====
-- Runs of the program to its exit.
use rkn_checker.Prelude.{ℕ, ◌+◌, ◌*◌, ◌≤◌, ◌≡◌, refl, ◌⊎◌, true}
use rkn_checker.Main.Shutdown.{
  Program, new_program, returned, Step, signals, grpc_moves, fails_to_listen, Steps, here, next,
}
use rkn_checker.Main.Shutdown.Ends.{IsOver, Steps-IsOver, Steps-unanswered}

-- The signal comes before the gRPC server has listened.
abbrev early : Program
early = record new_program { cancelled = true; grpc = record { phase = returned; in_flight = 0 } }

early_runs : Steps new_program 2 0 early
early_runs =
    next (next here (signals new_program refl refl)) (grpc_moves _ refl (fails_to_listen _ refl))

Steps-IsOver_example : (2 ≤ 6 + 2 * 0) × (((q : Program) × Step 0 early q) ⊎ IsOver early)
Steps-IsOver_example = Steps-IsOver early_runs

Steps-unanswered_example :
    (n : ℕ) × (p : Program) × Steps new_program n 3 p × IsOver p × (p.rest.in_flight ≡ 3)
Steps-unanswered_example = Steps-unanswered 3
