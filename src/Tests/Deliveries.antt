-- ===== src/Tests/Deliveries.antt =====
-- The deliveries with bodies that are the URL itself, and a mux that reads the table.
use rkn_checker.Prelude.{ℕ, ◌≡◌, refl, true, [], ◌∷◌, none, some, ok, err, if◌then◌else◌}
use rkn_checker.Text.{Bytes, bytes, bytes_eq, is_empty}
use rkn_checker.Storage.Dict.{Dict, get}
use rkn_checker.Domain.Url.{invalid_domain}
use rkn_checker.Domain.Blocking.{domain, type_string}
use rkn_checker.Storage.MemoryStore.{MemoryStore}
use rkn_checker.Service.{update_registry}
use rkn_checker.Service.Answers.{url_normalizer, memory_registry_store, answer}
use rkn_checker.Delivery.{BlockingChecker}
use rkn_checker.Delivery.Http.{
  Request, Library, Handler, done, sent_status, sent_body, logged_statuses,
}
use rkn_checker.Delivery.Common.{
  write_json_response, map_domain_error_to_grpc, internal, new_grpc_error,
}
use rkn_checker.Delivery.Rest.{
  Body, check_url_response, ServeMux, Dispatches, routes, check_url, reply_to_url, reply_to_check,
  response_of, refuse, write_error_response, serve, cors_middleware, logging_middleware,
  recovery_middleware, status_code,
}
use rkn_checker.Delivery.Rest.Logged.{IsServed, serve-IsServed, answer_of}
use rkn_checker.Delivery.Agreement.{Asks, Agrees, check_body, check_url-Agrees}
use rkn_checker.Delivery.Answered.{service_checker, promised, serve-update_registry}
use rkn_checker.Delivery.Grpc
use rkn_checker.Tests.Platforms.{small_platform, small_float, small_float-HasBits}
use rkn_checker.Tests.Stores.{registry, empty_store}

abbrev pub library : Library Body
library = record {
  decode_url = λ content. some content;
  encodes = λ body. true;
  status_text = λ code. [];
  trim_space = λ s. s;
}

abbrev pub reading : ServeMux
reading table r = elim (get table r.path) [ some handler ↦ handler r | none ↦ done [] ]

pub reading-Dispatches : (table : Dict (Handler Body)) → Dispatches reading table
reading-Dispatches table r handler found = rw (reading, found)

abbrev pub post : Bytes → Request
post url = record {
  method = bytes "POST";
  path = bytes "/api/v1/check";
  header = λ name. [];
  remote_addr = bytes "1.2.3.4";
  content = url;
}

-- It has no rule, refuses one name, and crashes at another.
abbrev checker : BlockingChecker
checker = record {
  check_url = λ url.
      if bytes_eq url (bytes "bad")
      then err invalid_domain
      else if bytes_eq url (bytes "nil")
      then ok none
      else ok (
          some (record {
            is_blocked = true;
            normalized_url = url;
            rule = none;
            reason = domain;
            checked_at = 1;
          }));
  get_stats = ok none;
}

serve_runs :
    (answer_of library (serve reading library checker (post (bytes "a.org"))) ≡ (
      some 200,
      some (
          check_url_response (record {
            blocked = true;
            normalized_url = bytes "a.org";
            reason = bytes "domain";
            match_of = [];
          })),
    ))
    × (sent_status (serve reading library checker (post (bytes "bad"))).effects ≡ some 500)
    × (sent_status (serve reading library checker (post (bytes "nil"))).effects ≡ some 500)
    × (logged_statuses (serve reading library checker (post (bytes "nil"))).effects ≡ 500 ∷ [])
unfolding serve cors_middleware logging_middleware recovery_middleware get bytes_eq check_url
    reply_to_url reply_to_check response_of refuse write_error_response write_json_response
    sent_status sent_body logged_statuses status_code is_empty type_string
serve_runs = (refl, refl, refl, refl)

grpc_runs :
    ((Grpc.serve (bytes "m") (Grpc.check_url checker (bytes "nil"))).log
      ≡ Grpc.panicked_call (bytes "m") ∷ [])
    × ((new_grpc_error invalid_domain []).code ≡ internal)
unfolding Grpc.serve Grpc.recovery_interceptor Grpc.logging_interceptor Grpc.check_url bytes_eq
    Grpc.reply_to_check is_empty new_grpc_error map_domain_error_to_grpc
grpc_runs = (refl, refl)

found_check :
    get (routes library checker) (bytes "/api/v1/check") ≡ some (check_url library checker)
unfolding get bytes_eq
found_check = refl

serve-IsServed_example :
    IsServed library (post (bytes "nil")) (serve reading library checker (post (bytes "nil")))
serve-IsServed_example =
    serve-IsServed library reading checker (post (bytes "nil")) (check_url library checker)
      (reading-Dispatches (routes library checker)) (λ body. refl) found_check

pub asks : (a : ℕ) (url : Bytes) → Asks library (post (a ∷ url)) (a ∷ url)
unfolding is_empty
asks a url = record { path = refl; method = refl; decoded = refl; not_blank = refl }

check_url-Agrees_example :
    Agrees library
      (check_body library)
      (answer_of library (serve reading library checker (post (bytes "nil"))))
      (Grpc.serve (bytes "m") (Grpc.check_url checker (bytes "nil")))
check_url-Agrees_example =
    check_url-Agrees library reading checker (post (bytes "nil")) (bytes "nil") (bytes "m")
      (reading-Dispatches (routes library checker)) refl (asks b'n' (bytes "il"))

serve-update_registry_example :
    (store' : MemoryStore) × (update_registry
        (url_normalizer small_platform)
        (memory_registry_store small_platform small_float)
        5
        empty_store
        (some registry)
      ≡ ok store')
    × (answer_of library (
          serve reading library
            (service_checker
              (url_normalizer small_platform)
              (memory_registry_store small_platform small_float)
              (λ time. [])
              7
              store')
            (post (bytes "http://www.Example.com:80/x")))
        ≡ promised library
            (answer small_platform 7 registry.entries (bytes "http://www.Example.com:80/x")))
serve-update_registry_example =
    serve-update_registry library reading small_platform small_float (λ time. []) 5 7 empty_store
      registry (post (bytes "http://www.Example.com:80/x")) (bytes "http://www.Example.com:80/x")
      small_float-HasBits (λ c. reading-Dispatches (routes library c))
      (asks b'h' (bytes "ttp://www.Example.com:80/x"))
