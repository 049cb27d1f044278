-- ===== src/Delivery/Agreement.antt =====
-- The two deliveries next to each other.
use rkn_checker.Prelude.{ℕ, ◌≡◌, refl, ◌∙◌, false, [], ◌∷◌, Option, none, some, Result, ok, err}
use rkn_checker.Text.{Bytes, bytes, bytes_eq, is_empty}
use rkn_checker.Storage.Dict.{get}
use rkn_checker.Domain.Url.{DomainError, empty_url, invalid_url}
use rkn_checker.Domain.Blocking.{BlockingResult}
use rkn_checker.Service.{BlockingStats}
use rkn_checker.Delivery.{BlockingChecker}
use rkn_checker.Delivery.Http.{Request, Library, sent_status, sent_body}
use rkn_checker.Delivery.Common.{
  Code, ok_code, unknown_code, invalid_argument, internal, write_json_response,
}
use rkn_checker.Delivery.Rest.{
  Body, check_url_response, stats_response, error_response, ServeMux, Dispatches, routes, check_url,
  get_stats, reply_to_url, reply_to_check, reply_to_stats, response_of, refuse,
  write_error_response, serve,
}
use rkn_checker.Delivery.Rest.Logged.{answer_of, recovered_answer, answer_of-serve}
use rkn_checker.Delivery.Grpc
use rkn_checker.Delivery.Grpc.{CallError, of_status, other}

-- The status of HTTP for a code of gRPC.
abbrev pub http_of : Code → ℕ
http_of ok_code = 200
http_of invalid_argument = 400
http_of unknown_code = 500
http_of internal = 500

module _ (library : Library Body) where
  abbrev error_answer : ℕ → Bytes → Option ℕ × Option Body
  error_answer code message = (
    some code,
    some (
        error_response
          (record { error = library.status_text code; code = code; message = message })),
  )

  -- The answer over HTTP that has the content of a result of gRPC.
  abbrev pub as_http : {A : Type 0} → (A → Body) → Result CallError A → Option ℕ × Option Body
  as_http body (ok a) = (some 200, some (body a))
  as_http body (err (of_status status)) = error_answer (http_of status.code) status.message
  as_http body (err (other message)) = error_answer 500 message

  abbrev pub check_body : Grpc.CheckUrlResponse → Body
  check_body response = check_url_response (record {
    blocked = response.blocked;
    normalized_url = response.normalized_url;
    reason = response.reason;
    match_of = response.match_of;
  })

  -- A call that does not panic, and whose result an answer over HTTP has.
  abbrev pub Agrees : {A : Type 0} → (A → Body) → Option ℕ × Option Body → Grpc.Call A → Type 0
  Agrees {A} body answer call =
      (result : Result CallError A) × (call.result ≡ some result) × (answer ≡ as_http body result)

  reply_to_check-Agrees :
      (method : Bytes) (found : Result DomainError (Option BlockingResult))
      → Agrees check_body
          (recovered_answer library (reply_to_check library found))
          (Grpc.serve method (Grpc.reply_to_check found))
  unfolding Grpc.serve Grpc.recovery_interceptor Grpc.logging_interceptor Grpc.reply_to_check
      Grpc.response_of reply_to_check response_of refuse write_error_response write_json_response
      sent_status sent_body
  reply_to_check-Agrees method (err empty_url) = (_, refl, refl)
  reply_to_check-Agrees method (err invalid_url) = (_, refl, refl)
  reply_to_check-Agrees method (err _) = (_, refl, refl)
  reply_to_check-Agrees method (ok none) = (_, refl, refl)
  reply_to_check-Agrees method (ok (some result)) = (_, refl, refl)

  reply_to_stats-Agrees :
      (method : Bytes) (found : Result DomainError (Option BlockingStats))
      → Agrees stats_response
          (recovered_answer library (reply_to_stats library found))
          (Grpc.serve method (Grpc.reply_to_stats found))
  unfolding Grpc.serve Grpc.recovery_interceptor Grpc.logging_interceptor Grpc.reply_to_stats
      reply_to_stats write_error_response write_json_response sent_status sent_body
  reply_to_stats-Agrees method (err e) = (_, refl, refl)
  reply_to_stats-Agrees method (ok none) = (_, refl, refl)
  reply_to_stats-Agrees method (ok (some stats)) = (_, refl, refl)

  -- A request for /api/v1/check with the method POST and a body that has `url`.
  pub record Asks (r : Request) (url : Bytes) : Type 0 where
    pub path : r.path ≡ bytes "/api/v1/check"
    pub method : r.method ≡ bytes "POST"
    pub decoded : library.decode_url r.content ≡ some url
    pub not_blank : is_empty (library.trim_space url) ≡ false

  -- The server's answer to such a request is that of the handler, from the service's on.
  pub answer_of-check :
      (mux : ServeMux) (checker : BlockingChecker) (r : Request) (url : Bytes)
      → Dispatches mux (routes library checker)
      → Asks r url
      → answer_of library (serve mux library checker r)
        ≡ recovered_answer library (reply_to_check library (checker.check_url url))
  unfolding get check_url reply_to_url bytes_eq
  answer_of-check mux checker r url dispatches asks =
      answer_of-serve library mux checker r (check_url library checker) dispatches
        (rw asks.path refl) (rw asks.method refl)
      ∙ rw (check_url, asks.method, asks.decoded, asks.not_blank)

  not_empty :
      (url : Bytes)
      → library.trim_space [] ≡ []
      → is_empty (library.trim_space url) ≡ false
      → is_empty url ≡ false
  unfolding is_empty
  not_empty [] trimmed not_blank = cc (rw trimmed at not_blank)
  not_empty (a ∷ url) trimmed not_blank = refl

  -- For a URL that is not blank, a POST of it to the REST server and CheckURL over gRPC have the
  -- same answer, whatever the service returns: the same fields, or the same message with the status
  -- that stands for the code, where a panic of the handler is an internal error. The mux is assumed
  -- to call the handler of the path, and TrimSpace to leave the empty string.
  pub check_url-Agrees :
      (mux : ServeMux) (checker : BlockingChecker) (r : Request) (url method : Bytes)
      → Dispatches mux (routes library checker)
      → library.trim_space [] ≡ []
      → Asks r url
      → Agrees check_body
          (answer_of library (serve mux library checker r))
          (Grpc.serve method (Grpc.check_url checker url))
  unfolding Grpc.check_url
  check_url-Agrees mux checker r url method dispatches trimmed asks =
      rw
        (
          answer_of-check mux checker r url dispatches asks,
          Grpc.check_url,
          not_empty url trimmed asks.not_blank,
        )
        (reply_to_check-Agrees method (checker.check_url url))

  -- The same for the statistics.
  pub get_stats-Agrees :
      (mux : ServeMux) (checker : BlockingChecker) (r : Request) (method : Bytes)
      → Dispatches mux (routes library checker)
      → r.path ≡ bytes "/api/v1/stats"
      → r.method ≡ bytes "GET"
      → Agrees stats_response
          (answer_of library (serve mux library checker r))
          (Grpc.serve method (Grpc.get_stats checker))
  unfolding get get_stats bytes_eq Grpc.get_stats
  get_stats-Agrees mux checker r method dispatches at_path by_method =
      rw
        (
          answer_of-serve library mux checker r (get_stats library checker) dispatches
              (rw at_path refl) (rw by_method refl),
          get_stats,
          by_method,
        )
        (reply_to_stats-Agrees method checker.get_stats)
