-- ===== src/Delivery/Rest/Logged.antt =====
-- What the chain of middleware adds to a handler of the service.
use rkn_checker.Prelude.{
  ℕ, ◌≡◌, refl, ap, Bool, true, false, [], ◌∷◌, Option, none, some, some_inj, ok, err, leb,
  if◌then◌else◌, Bool-cases, inl, inr, ◌⊎◌, not,
}
use mathlib.Core.Path.{subst}
use rkn_checker.Text.{Bytes, bytes, bytes_eq, is_empty}
use rkn_checker.Storage.Dict.{get}
use rkn_checker.Domain.Url.{DomainError, empty_url, invalid_url}
use rkn_checker.Delivery.{BlockingChecker}
use rkn_checker.Delivery.Http.{
  Request, AccessEntry, failed, completed, log, error, Run, Handler, done, Library, sent_status,
  sent_body, logged_statuses,
}
use rkn_checker.Delivery.Common.{write_json_response}
use rkn_checker.Delivery.Rest.{
  Body, error_response, status_code, recovery_middleware, logging_middleware, cors_middleware,
  write_error_response, refuse, reply_to_check, reply_to_stats, reply_to_url, check_url, get_stats,
  health_check, routes, ServeMux, Dispatches, serve,
}

found_in :
    {A : Type 0} (b : Bool) {h handler : A} {rest : Option A}
    → (if b then some h else rest) ≡ some handler
    → (h ≡ handler) ⊎ (rest ≡ some handler)
found_in true e = inl (some_inj e)
found_in false e = inr e

module _ (library : Library Body) where
  -- What a handler of the service does: it answers once, after an entry at most, or it panics first.
  pub data IsHandled : Run Body → Type 0 where
    answers : (code : ℕ) (body : Body) → IsHandled (done (write_json_response library code body))
    reports :
        (message : Bytes) (code : ℕ) (body : Body)
        → IsHandled (done (log (error message) ∷ write_json_response library code body))
    crashes : IsHandled (record { effects = []; panics = true })

  refuse-IsHandled : (e : DomainError) → IsHandled (done (refuse library e))
  unfolding refuse write_error_response
  refuse-IsHandled empty_url = answers _ _
  refuse-IsHandled invalid_url = answers _ _
  refuse-IsHandled _ = reports _ _ _

  reply_to_check-IsHandled : (r : _) → IsHandled (reply_to_check library r)
  unfolding reply_to_check
  reply_to_check-IsHandled (err e) = refuse-IsHandled e
  reply_to_check-IsHandled (ok none) = crashes
  reply_to_check-IsHandled (ok (some result)) = answers _ _

  reply_to_stats-IsHandled : (r : _) → IsHandled (reply_to_stats library r)
  unfolding reply_to_stats write_error_response
  reply_to_stats-IsHandled (err e) = reports _ _ _
  reply_to_stats-IsHandled (ok none) = crashes
  reply_to_stats-IsHandled (ok (some stats)) = answers _ _

  either : {x y : Run Body} (b : Bool) → IsHandled x → IsHandled y → IsHandled (if b then x else y)
  either true left right = left
  either false left right = right

  module _ (checker : BlockingChecker) where
    reply_to_url-IsHandled : (url : Option Bytes) → IsHandled (reply_to_url library checker url)
    unfolding reply_to_url write_error_response
    reply_to_url-IsHandled none = answers _ _
    reply_to_url-IsHandled (some url) =
        either (is_empty (library.trim_space url)) (answers _ _)
          (reply_to_check-IsHandled (checker.check_url url))

    check_url-IsHandled : (r : Request) → IsHandled (check_url library checker r)
    unfolding check_url write_error_response
    check_url-IsHandled r =
        either (not (bytes_eq r.method (bytes "POST"))) (answers _ _)
          (reply_to_url-IsHandled (library.decode_url r.content))

    get_stats-IsHandled : (r : Request) → IsHandled (get_stats library checker r)
    unfolding get_stats write_error_response
    get_stats-IsHandled r =
        either (not (bytes_eq r.method (bytes "GET"))) (answers _ _)
          (reply_to_stats-IsHandled checker.get_stats)

    health_check-IsHandled : (r : Request) → IsHandled (health_check library checker r)
    unfolding health_check write_error_response
    health_check-IsHandled r =
        either (not (bytes_eq r.method (bytes "GET"))) (answers _ _) (answers _ _)

    -- Every route has such a handler.
    pub routes-IsHandled :
        (path : Bytes) (handler : Handler Body)
        → get (routes library checker) path ≡ some handler
        → (r : Request) → IsHandled (handler r)
    unfolding get
    routes-IsHandled path handler found r =
        elim (found_in (bytes_eq path (bytes "/api/v1/check")) found) [
          | inl same ↦ subst (λ h. IsHandled (h r)) same (check_url-IsHandled r)
          | inr later ↦ elim (found_in (bytes_eq path (bytes "/api/v1/stats")) later) [
            | inl same ↦ subst (λ h. IsHandled (h r)) same (get_stats-IsHandled r)
            | inr last ↦ elim (found_in (bytes_eq path (bytes "/health")) last) [
              | inl same ↦ subst (λ h. IsHandled (h r)) same (health_check-IsHandled r)
              | inr nowhere ↦ cc nowhere
            ]
          ]
        ]

  -- The recovery and the logging around a handler that did `ran`.
  abbrev around : Request → Run Body → Run Body
  around r ran = logging_middleware (recovery_middleware library (λ request. ran)) r

  pub serve_lem :
      (mux : ServeMux) (checker : BlockingChecker) (r : Request) (handler : Handler Body)
      → Dispatches mux (routes library checker)
      → get (routes library checker) r.path ≡ some handler
      → serve mux library checker r ≡ cors_middleware (λ request. around r (handler r)) r
  unfolding serve cors_middleware logging_middleware recovery_middleware
  serve_lem mux checker r handler dispatches found =
      ap (λ ran. cors_middleware (λ request. around r ran) r) (dispatches r handler found)

  -- The status and the body that a client is sent.
  abbrev pub answer_of : Run Body → Option ℕ × Option Body
  answer_of ran = (sent_status ran.effects, sent_body ran.effects)

  -- The same, where a panic is answered as an internal error.
  abbrev pub recovered_answer : Run Body → Option ℕ × Option Body
  recovered_answer ran =
      if ran.panics
      then (
        some 500,
        some (
            error_response (record {
              error = library.status_text 500;
              code = 500;
              message = bytes "Internal server error";
            })),
      )
      else answer_of ran

  answer_of-around :
      (r : Request) (ran : Run Body)
      → IsHandled ran
      → answer_of (around r ran) ≡ recovered_answer ran
  unfolding logging_middleware recovery_middleware sent_status sent_body write_json_response
      write_error_response
  answer_of-around r _ (answers code body) = refl
  answer_of-around r _ (reports message code body) = refl
  answer_of-around r _ crashes = refl

  -- At a path with a handler of the service and with any method but OPTIONS, a client is sent what
  -- the handler answers, or an internal error where it panics.
  pub answer_of-serve :
      (mux : ServeMux) (checker : BlockingChecker) (r : Request) (handler : Handler Body)
      → Dispatches mux (routes library checker)
      → get (routes library checker) r.path ≡ some handler
      → bytes_eq r.method (bytes "OPTIONS") ≡ false
      → answer_of (serve mux library checker r) ≡ recovered_answer (handler r)
  unfolding cors_middleware sent_status sent_body
  answer_of-serve mux checker r handler dispatches found method =
      rw (serve_lem mux checker r handler dispatches found, method)
        (answer_of-around r (handler r) (routes-IsHandled checker r.path handler found r))

  logged-last :
      (b : Bool) (entry : AccessEntry)
      → logged_statuses {J = Body} (log (if b then failed entry else completed entry) ∷ [])
        ≡ entry.status ∷ []
  unfolding logged_statuses
  logged-last true entry = refl
  logged-last false entry = refl

  -- The status that is sent is the one that the log has of the request.
  abbrev pub IsLogged : Run Body → Type 0
  IsLogged ran =
      (status : ℕ) × (ran.panics ≡ false)
      × (sent_status ran.effects ≡ some status)
      × (logged_statuses ran.effects ≡ status ∷ [])

  around-IsLogged :
      (r : Request) (ran : Run Body)
      → ((body : Body) → library.encodes body ≡ true)
      → IsHandled ran
      → IsLogged (around r ran)
  unfolding logging_middleware recovery_middleware sent_status logged_statuses status_code
      write_json_response write_error_response
  around-IsLogged r _ encodes (answers code body) =
      (code, refl, refl, rw (encodes body) (logged-last (leb 400 code) _))
  around-IsLogged r _ encodes (reports message code body) =
      (code, refl, refl, rw (encodes body) (logged-last (leb 400 code) _))
  around-IsLogged r _ encodes crashes = (500, refl, refl, rw (encodes _) refl)

  -- What is asked of the server about a request: it does not panic, it sends a status, and the log
  -- has that status once, or nothing where the method is OPTIONS.
  abbrev pub IsServed : Request → Run Body → Type 0
  IsServed r ran =
      (status : ℕ) × (ran.panics ≡ false)
      × (sent_status ran.effects ≡ some status)
      × (logged_statuses ran.effects
          ≡ (if bytes_eq r.method (bytes "OPTIONS") then [] else status ∷ []))

  -- Every request to a path of the service is answered without a panic, whatever the service does.
  -- The log has exactly the status that is sent, or nothing where the method is OPTIONS. The mux is
  -- assumed to call the handler of the path, and every body to be encoded without an error.
  pub serve-IsServed :
      (mux : ServeMux) (checker : BlockingChecker) (r : Request) (handler : Handler Body)
      → Dispatches mux (routes library checker)
      → ((body : Body) → library.encodes body ≡ true)
      → get (routes library checker) r.path ≡ some handler
      → IsServed r (serve mux library checker r)
  unfolding cors_middleware sent_status logged_statuses
  serve-IsServed mux checker r handler dispatches encodes found =
      elim (Bool-cases (bytes_eq r.method (bytes "OPTIONS"))) [
        | inl preflight ↦
            rw (serve_lem mux checker r handler dispatches found, preflight) (200, refl, refl, refl)
        | inr other ↦
            rw (serve_lem mux checker r handler dispatches found, other)
              (around-IsLogged r (handler r) encodes
                (routes-IsHandled checker r.path handler found r))
      ]
