-- ===== src/Main/Shutdown.antt =====
-- The goroutines of cmd/app/main.go and the Start of both servers (delivery/rest/server.go and
-- delivery/grpc/server.go), from the start to the exit, as steps in any order. Of net/http and grpc
-- the steps have that the call that serves fails, or goes on until the shutdown is called.
-- ListenAndServe then returns at once, while requests may still be worked on; Serve of grpc returns
-- where GracefulStop has waited for them all. main does not wait for the scheduler, which is left
-- out here.
pub mod Ends
use rkn_checker.Prelude.{
  ℕ, zero, suc, ◌+◌, ◌*◌, ◌≤◌, ◌<◌, ◌≡◌, refl, ◌⊎◌, inl, inr, Bool, true, false, Bool-cases, arith,
}

-- What the goroutine of main that runs a server is at: before it listens, in the call that serves,
-- or past the return of Start.
pub data Phase : Type 0 where
  starting serving returned : Phase

-- A server, and how many requests it works on.
pub record Server : Type 0 where
  pub phase : Phase
  pub in_flight : ℕ

-- A step of a server, with the number of requests that come in by it, where the context is
-- cancelled or not; `waits` says whether its shutdown waits for the requests in flight before the
-- call that serves returns.
pub data ServerStep (waits cancelled : Bool) : ℕ → Server → Server → Type 0 where
  listens :
      (s : Server)
      → s.phase ≡ starting
      → ServerStep waits cancelled 0 s (record s { phase = serving })
  fails_to_listen :
      (s : Server)
      → s.phase ≡ starting
      → ServerStep waits cancelled 0 s (record s { phase = returned })
  fails_to_serve :
      (s : Server)
      → s.phase ≡ serving
      → ServerStep waits cancelled 0 s (record s { phase = returned })
  receives :
      (s : Server)
      → s.phase ≡ serving
      → ServerStep waits cancelled 1 s (record s { in_flight = s.in_flight + 1 })
  answers :
      (s : Server) (n : ℕ)
      → s.in_flight ≡ suc n
      → ServerStep waits cancelled 0 s (record s { in_flight = n })
  shuts_down :
      (s : Server)
      → cancelled ≡ true
      → s.phase ≡ serving
      → (waits ≡ true → s.in_flight ≡ 0)
      → ServerStep waits cancelled 0 s (record s { phase = returned })

pub record Program : Type 0 where
  pub cancelled : Bool
  pub grpc : Server
  pub rest : Server
  pub exited : Bool

abbrev pub new_program : Program
new_program = record {
  cancelled = false;
  grpc = record { phase = starting; in_flight = 0 };
  rest = record { phase = starting; in_flight = 0 };
  exited = false;
}

-- A step of the program. `signals` is the signal and the call of cancel, `exits` the end of
-- wg.Wait and of main.
pub data Step : ℕ → Program → Program → Type 0 where
  signals :
      (p : Program)
      → p.exited ≡ false
      → p.cancelled ≡ false
      → Step 0 p (record p { cancelled = true })
  grpc_moves :
      (p : Program) {a : ℕ} {s : Server}
      → p.exited ≡ false
      → ServerStep true p.cancelled a p.grpc s
      → Step a p (record p { grpc = s })
  rest_moves :
      (p : Program) {a : ℕ} {s : Server}
      → p.exited ≡ false
      → ServerStep false p.cancelled a p.rest s
      → Step a p (record p { rest = s })
  exits :
      (p : Program)
      → p.exited ≡ false
      → p.cancelled ≡ true
      → p.grpc.phase ≡ returned
      → p.rest.phase ≡ returned
      → Step 0 p (record p { exited = true })

-- A run of some steps, with the requests that came in.
pub data Steps (p : Program) : (length arrivals : ℕ) → Program → Type 0 where
  here : Steps p 0 0 p
  next : {n a b : ℕ} {q r : Program} → Steps p n a q → Step b q r → Steps p (n + 1) (a + b) r
