-- ===== src/Delivery/Answered.antt =====
-- The REST server over the service of the program.
use rkn_checker.Prelude.{
  ℕ, ◌≡◌, refl, ◌∙◌, ap, Bool, true, false, List, Option, none, some, Result, ok, err, [],
  Option-cases, inl, inr, arith,
}
use rkn_checker.Text.{Bytes, bytes}
use rkn_checker.Platform.{Platform}
use rkn_checker.Domain.Url.{DomainError, empty_url, invalid_url, registry_entry_invalid}
use rkn_checker.Domain.Blocking.{BlockingResult, BlockingRule, type_string}
use rkn_checker.Domain.Registry.{Registry, RegistryEntry}
use rkn_checker.Normalizer.{remove_port, with_scheme, normalize, normalize_host, normalize_domain}
use rkn_checker.Storage.Bloom.{FloatMath}
use rkn_checker.Storage.Bloom.Bounds.{HasBits}
use rkn_checker.Storage.MemoryStore.{MemoryStore}
use rkn_checker.Service.{UrlNormalizer, RegistryStore, check_url, get_stats, update_registry}
use rkn_checker.Service.Answers.{
  url_normalizer, memory_registry_store, answer, check_url-update_registry,
}
use rkn_checker.Delivery.{BlockingChecker}
use rkn_checker.Delivery.Http.{Request, Library, sent_status, sent_body}
use rkn_checker.Delivery.Common.{map_domain_error_to_http, write_json_response}
use rkn_checker.Delivery.Rest.{
  Body, check_url_response, error_response, ServeMux, Dispatches, routes, reply_to_check,
  response_of, refuse, write_error_response, serve,
}
use rkn_checker.Delivery.Rest.Logged.{answer_of, recovered_answer}
use rkn_checker.Delivery.Agreement.{Asks, answer_of-check}

abbrev pub found : Result DomainError BlockingResult → Result DomainError (Option BlockingResult)
found (err e) = err e
found (ok result) = ok (some result)

-- The BlockingService as the interface, at a time and with a state of the store; it never returns
-- nil without an error.
abbrev pub service_checker :
    {S : Type 0} → UrlNormalizer → RegistryStore S → (ℕ → Bytes) → ℕ → S → BlockingChecker
service_checker normalizer store format now s = record {
  check_url = λ raw. found (check_url normalizer store now s raw);
  get_stats = ok (some (get_stats normalizer store format s));
}

abbrev is_entry_error : {A : Type 0} → Result DomainError A → Bool
is_entry_error (err registry_entry_invalid) = true
is_entry_error _ = false

normalize_domain-no_entry_error :
    (platform : Platform) (host : Bytes) → is_entry_error (normalize_domain platform host) ≡ false
unfolding normalize_domain
normalize_domain-no_entry_error platform host = ground arith

normalize_host-no_entry_error :
    (platform : Platform) (host : Bytes) → is_entry_error (normalize_host platform host) ≡ false
unfolding normalize_host
normalize_host-no_entry_error platform host =
    ground (arith, normalize_domain-no_entry_error platform host)

normalize-no_entry_error :
    (platform : Platform) (raw : Bytes) → is_entry_error (normalize platform raw) ≡ false
unfolding normalize
normalize-no_entry_error platform raw =
    elim (Option-cases (platform.url_host (with_scheme platform (platform.trim_space raw)))) [
      | inl absent ↦ rw (normalize, absent) (ground arith)
      | inr (host, present) ↦
          rw (normalize, present)
            (ground (
              arith,
              normalize_host-no_entry_error platform (platform.to_lower (remove_port host)),
            ))
    ]

answer-no_entry_error :
    (platform : Platform) (now : ℕ) (es : List RegistryEntry) (raw : Bytes)
    → is_entry_error (answer platform now es raw) ≡ false
unfolding answer
answer-no_entry_error platform now es raw = ground (arith, normalize-no_entry_error platform raw)

abbrev pub pattern_of : Option BlockingRule → Bytes
pattern_of none = []
pattern_of (some rule) = rule.pattern

-- What the API promises for a verdict: the fields of the result, where the reason and the pattern
-- are empty unless the URL is blocked.
abbrev pub fields_of : Bool → BlockingResult → Body
fields_of true result = check_url_response (record {
  blocked = true;
  normalized_url = result.normalized_url;
  reason = type_string result.reason;
  match_of = pattern_of result.rule;
})
fields_of false result =
    check_url_response (record {
      blocked = false;
      normalized_url = result.normalized_url;
      reason = [];
      match_of = [];
    })

abbrev pub message_of : DomainError → Bytes
message_of empty_url = bytes "URL is empty"
message_of invalid_url = bytes "Invalid URL format"
message_of _ = bytes "Internal server error"

module _ (library : Library Body) where
  abbrev pub promised : Result DomainError BlockingResult → Option ℕ × Option Body
  promised (ok result) = (some 200, some (fields_of result.is_blocked result))
  promised (err e) = (
    some (map_domain_error_to_http e),
    some (
        error_response (record {
          error = library.status_text (map_domain_error_to_http e);
          code = map_domain_error_to_http e;
          message = message_of e;
        })),
  )

  response_of-fields :
      (result : BlockingResult)
      → check_url_response (response_of result) ≡ fields_of result.is_blocked result
  unfolding response_of
  response_of-fields result = ground arith

  reply_to_check-promised :
      (r : Result DomainError BlockingResult)
      → is_entry_error r ≡ false
      → recovered_answer library (reply_to_check library (found r)) ≡ promised r
  unfolding reply_to_check refuse write_error_response write_json_response sent_status sent_body
      map_domain_error_to_http
  reply_to_check-promised (ok result) fine =
      ap (λ body. (some 200, some body)) (response_of-fields result)
  reply_to_check-promised (err registry_entry_invalid) fine = cc fine
  reply_to_check-promised (err _) fine = refl

  -- A POST of a URL to the server over a service that gives the answer for a list of entries.
  pub answer_of-promised :
      (mux : ServeMux) (platform : Platform) (checker : BlockingChecker) (now : ℕ)
      (es : List RegistryEntry) (r : Request) (raw : Bytes)
      → Dispatches mux (routes library checker)
      → Asks library r raw
      → checker.check_url raw ≡ found (answer platform now es raw)
      → answer_of library (serve mux library checker r) ≡ promised (answer platform now es raw)
  answer_of-promised mux platform checker now es r raw dispatches asks answered =
      answer_of-check library mux checker r raw dispatches asks
      ∙ ap (λ a. recovered_answer library (reply_to_check library a)) answered
      ∙ reply_to_check-promised (answer platform now es raw)
          (answer-no_entry_error platform now es raw)

  -- The whole way of a request: UpdateRegistry succeeds with every registry, and a POST to
  -- /api/v1/check of a URL that is not blank is then answered as the registry's entries ask: with
  -- the verdict, or with the status that MapDomainErrorToHTTP gives for the error. The mux is
  -- assumed to call the handler of the path, and the formula for the filter's size to give at least
  -- one bit, and so few that 63 more do not wrap in 64 bits.
  pub serve-update_registry :
      (mux : ServeMux) (platform : Platform) (float : FloatMath) (format : ℕ → Bytes)
      (then_time now : ℕ) (store : MemoryStore) (registry : Registry) (r : Request) (raw : Bytes)
      → HasBits float
      → ((checker : BlockingChecker) → Dispatches mux (routes library checker))
      → Asks library r raw
      → (store' : MemoryStore) × (update_registry
            (url_normalizer platform)
            (memory_registry_store platform float)
            then_time
            store
            (some registry)
          ≡ ok store')
        × (answer_of library (
              serve mux library
                (service_checker
                  (url_normalizer platform)
                  (memory_registry_store platform float)
                  format
                  now
                  store')
                r)
            ≡ promised (answer platform now registry.entries raw))
  serve-update_registry mux platform float format then_time now store registry r raw positive
        dispatches asks =
      let (store', done, answered) =
        check_url-update_registry platform float then_time now store registry raw positive in
      let checker =
        service_checker (url_normalizer platform) (memory_registry_store platform float) format now
          store' in
      (
        store',
        done,
        answer_of-promised mux platform checker now registry.entries r raw (dispatches checker) asks
            (ap found answered),
      )
