-- ===== src/Main/Shutdown/Ends.antt =====
-- How a run of the program ends.
use mathlib.Core.Path.{subst}
use rkn_checker.Prelude.{
  ℕ, zero, suc, ◌+◌, ◌*◌, ◌≤◌, ◌≡◌, refl, ◌⊎◌, inl, inr, Bool, true, false, Bool-cases, arith,
}
use rkn_checker.Main.Shutdown.{
  Phase, starting, serving, returned, Server, ServerStep, listens, fails_to_listen, fails_to_serve,
  receives, answers, shuts_down, Program, new_program, Step, signals, grpc_moves, rest_moves, exits,
  Steps, here, next,
}

abbrev phase_left : Phase → ℕ
phase_left starting = 2
phase_left serving = 1
phase_left returned = 0

abbrev unless : Bool → ℕ
unless true = 0
unless false = 1

-- What is left to do if no request comes in any more.
abbrev steps_left : Program → ℕ
steps_left p =
    unless p.cancelled
    + unless p.exited
    + (phase_left p.grpc.phase + p.grpc.in_flight)
    + (phase_left p.rest.phase + p.rest.in_flight)

ServerStep-steps_left :
    {waits c : Bool} {a : ℕ} {s t : Server}
    → ServerStep waits c a s t
    → 1 + (phase_left t.phase + t.in_flight) ≤ phase_left s.phase + s.in_flight + 2 * a
ServerStep-steps_left (listens s at) = ground arith
ServerStep-steps_left (fails_to_listen s at) = ground arith
ServerStep-steps_left (fails_to_serve s at) = ground arith
ServerStep-steps_left (receives s at) = ground arith
ServerStep-steps_left (answers s n at) = ground arith
ServerStep-steps_left (shuts_down s over at answered) = ground arith

Step-steps_left : {a : ℕ} {p q : Program} → Step a p q → 1 + steps_left q ≤ steps_left p + 2 * a
Step-steps_left (signals p runs waits) = ground arith
Step-steps_left (grpc_moves p runs moves) = let fewer = ServerStep-steps_left moves in omega arith
Step-steps_left (rest_moves p runs moves) = let fewer = ServerStep-steps_left moves in omega arith
Step-steps_left (exits p runs over grpc_over rest_over) = ground arith

Steps-steps_left :
    {p : Program} {n a : ℕ} {q : Program} → Steps p n a q → n + steps_left q ≤ steps_left p + 2 * a
Steps-steps_left here = omega arith
Steps-steps_left (next steps step) =
    let before = Steps-steps_left steps in let now = Step-steps_left step in omega arith

-- main has returned: it got a signal, and the Start of both servers has returned.
pub record IsOver (p : Program) : Type 0 where
  pub over : p.exited ≡ true
  pub signalled : p.cancelled ≡ true
  pub grpc_returned : p.grpc.phase ≡ returned
  pub rest_returned : p.rest.phase ≡ returned

abbrev IsSound : Program → Type 0
IsSound p = (p.exited ≡ false) ⊎ IsOver p

Step-IsSound : {a : ℕ} {p q : Program} → Step a p q → IsSound q
Step-IsSound (signals p runs waits) = inl runs
Step-IsSound (grpc_moves p runs moves) = inl runs
Step-IsSound (rest_moves p runs moves) = inl runs
Step-IsSound (exits p runs over grpc_over rest_over) =
    inr (record {
      over = refl;
      signalled = over;
      grpc_returned = grpc_over;
      rest_returned = rest_over;
    })

Steps-IsSound : {n a : ℕ} {p : Program} → Steps new_program n a p → IsSound p
Steps-IsSound here = inl refl
Steps-IsSound (next steps step) = Step-IsSound step

-- A server that has not returned can go on where the context is cancelled.
server_goes_on :
    (waits c : Bool) (s : Server) (phase : Phase) (n : ℕ)
    → c ≡ true
    → s.phase ≡ phase
    → s.in_flight ≡ n
    → (s.phase ≡ returned) ⊎ ((t : Server) × ServerStep waits c 0 s t)
server_goes_on waits c s starting n over at working = inr (_, fails_to_listen s at)
server_goes_on waits c s serving zero over at working = inr (_, shuts_down s over at (λ e. working))
server_goes_on waits c s serving (suc n) over at working = inr (_, answers s n working)
server_goes_on waits c s returned n over at working = inl at

goes_on : (p : Program) → p.exited ≡ false → (q : Program) × Step 0 p q
goes_on p runs = elim (Bool-cases p.cancelled) [
  | inr waits ↦ (_, signals p runs waits)
  | inl over ↦ elim (server_goes_on true p.cancelled p.grpc _ _ over refl refl) [
    | inr (s, moves) ↦ (_, grpc_moves p runs moves)
    | inl grpc_over ↦ elim (server_goes_on false p.cancelled p.rest _ _ over refl refl) [
      | inr (s, moves) ↦ (_, rest_moves p runs moves)
      | inl rest_over ↦ (_, exits p runs over grpc_over rest_over)
    ]
  ]
]

-- A run of the program in which some number of requests come in has at most six steps and two more
-- for each of them. Where it stops short of a next step, main has returned: it got a signal, and
-- the Start of both servers has returned.
pub Steps-IsOver :
    {n a : ℕ} {p : Program}
    → Steps new_program n a p
    → (n ≤ 6 + 2 * a) × (((q : Program) × Step 0 p q) ⊎ IsOver p)
Steps-IsOver steps = (
  (let bound = Steps-steps_left steps in omega arith),
  elim (Steps-IsSound steps) [ inl runs ↦ inl (goes_on _ runs) | inr over ↦ inr over ],
)

abbrev serving_both : ℕ → Program
serving_both k = record {
  cancelled = false;
  grpc = record { phase = serving; in_flight = 0 };
  rest = record { phase = serving; in_flight = k };
  exited = false;
}

-- Some requests come in, and none is answered.
requests_come : (k : ℕ) → (n : ℕ) × Steps new_program n k (serving_both k)
requests_come zero =
    let grpc_listens = next here (grpc_moves new_program refl (listens _ refl)) in
    (_, next grpc_listens (rest_moves _ refl (listens _ refl)))
requests_come (suc k) =
    let (n, steps) = requests_come k in
    let come : Steps new_program (n + 1) (k + 1) (serving_both (k + 1)) =
      next steps (rest_moves (serving_both k) refl (receives _ refl)) in
    let same : k + 1 ≡ suc k = omega arith in
    (n + 1, subst (λ j. Steps new_program (n + 1) j (serving_both j)) same come)

abbrev over_both : ℕ → Program
over_both k = record {
  cancelled = true;
  grpc = record { phase = returned; in_flight = 0 };
  rest = record { phase = returned; in_flight = k };
  exited = true;
}

-- However many requests the REST server works on, there is a run in which main returns while all of
-- them are unanswered: it waits for Start, and not for the Shutdown that lets them finish.
pub Steps-unanswered :
    (k : ℕ) → (n : ℕ) × (p : Program) × Steps new_program n k p × IsOver p × (p.rest.in_flight ≡ k)
Steps-unanswered k =
    let (n, steps) = requests_come k in
    let signalled = next steps (signals _ refl refl) in
    let grpc_over = next signalled (grpc_moves _ refl (shuts_down _ refl refl (λ e. refl))) in
    let rest_over = next grpc_over (rest_moves _ refl (shuts_down _ refl refl (λ e. cc e))) in
    let over : Steps new_program (n + 1 + 1 + 1 + 1) (k + 0 + 0 + 0 + 0) (over_both k) =
      next rest_over (exits _ refl refl refl refl) in
    let same : k + 0 + 0 + 0 + 0 ≡ k = omega arith in
    (
      n + 1 + 1 + 1 + 1,
      over_both k,
      subst (λ j. Steps new_program (n + 1 + 1 + 1 + 1) j (over_both k)) same over,
      record { over = refl; signalled = refl; grpc_returned = refl; rest_returned = refl },
      refl,
    )
