-- ===== src/Registry/Official/Fetches.antt =====
-- What Fetch of the official source returns.
use mathlib.Core.Path.{subst}
use rkn_checker.Prelude.{
  ℕ, zero, suc, ◌+◌, ◌<◌, ◌≡◌, refl, ◌∙◌, ◌==◌, Bool, true, false, Option, none, some, [], ◌∷◌,
  Result, ok, err, ok_inj, ◌>>=◌, is_ok, if◌then◌else◌, Bool-cases, Result-cases, inl, inr, arith,
}
use rkn_checker.Prelude.Integers.{pos_part}
use rkn_checker.Text.{Bytes, bytes, is_empty}
use rkn_checker.Registry.Exchange.{Http, HttpReply, exchange, exchange-ok}
use rkn_checker.Registry.Official.{
  OfficialError, FetchError, context_done, OfficialSource, direct_request, fetch_direct,
  send_soap_request, get_soap_result, fetch_once, fetch_attempts, fetch,
}

module _ {E : Type 0} (http : Http E) where
  get_soap_result-fails :
      (r : Result (OfficialError E) Bytes) → is_ok (r >>= get_soap_result http) ≡ false
  unfolding get_soap_result
  get_soap_result-fails (ok request_id) = refl
  get_soap_result-fails (err e) = refl

  -- Without the test mode no fetch succeeds, whatever the network answers.
  pub fetch_once-soap :
      (i : ℕ) (o : OfficialSource) → o.test_mode ≡ false → is_ok (fetch_once http i o) ≡ false
  unfolding fetch_once
  fetch_once-soap i o real = rw real (get_soap_result-fails _)

  -- The wait before an attempt does not turn an error into a result.
  waited-ok :
      (first : Bool) (ended : Option E) (r : Result (FetchError E) Bytes) (content : Bytes)
      → (if first then r else elim ended [ some e ↦ err (context_done e) | none ↦ r ]) ≡ ok content
      → r ≡ ok content
  waited-ok true ended r content e = e
  waited-ok false none r content e = e
  waited-ok false (some bad) r content e = cc

  -- One of the attempts succeeded with what the loop returns.
  fetch_attempts-ok :
      (ended : ℕ → Option E) (attempt left : ℕ) (last : Option (OfficialError E))
      (o : OfficialSource) (content : Bytes)
      → fetch_attempts http ended attempt left last o ≡ ok content
      → (i : ℕ) × (i < attempt + left) × (fetch_once http i o ≡ ok content)
  unfolding fetch_attempts
  fetch_attempts-ok ended attempt zero last o content e = cc
  fetch_attempts-ok ended attempt (suc left) last o content e =
      let ran = waited-ok (attempt == 0) (ended attempt) _ content e in
      elim (Result-cases (fetch_once http attempt o)) [
        | inl (c, good) ↦
            let same : Path (Result (FetchError E) Bytes) (ok c) (ok content) = rw good at ran in
            (attempt, omega arith, good ∙ cc same)
        | inr (bad, failed) ↦
            let (i, below, found) =
              fetch_attempts-ok ended (suc attempt) left (some bad) o content (rw failed at ran) in
            (i, omega arith, found)
      ]

  fetch_direct-ok :
      (i : ℕ) (o : OfficialSource) (content : Bytes)
      → fetch_direct http i o ≡ ok content
      → (exchange http i (direct_request o) ≡ ok content) × (is_empty content ≡ false)
  unfolding fetch_direct
  fetch_direct-ok i o content e = elim (Result-cases (exchange http i (direct_request o))) [
    | inr (bad, failed) ↦ cc (rw (fetch_direct, failed) at e)
    | inl (all, read) ↦ elim (Bool-cases (is_empty all)) [
      | inl nothing ↦ cc (rw (fetch_direct, read, nothing) at e)
      | inr something ↦
          let same : all ≡ content = ok_inj (rw (fetch_direct, read, something) at e) in
          rw (← same) (read, something)
    ]
  ]

  fetch_once-ok :
      (i : ℕ) (o : OfficialSource) (content : Bytes)
      → fetch_once http i o ≡ ok content
      → fetch_direct http i o ≡ ok content
  unfolding fetch_once
  fetch_once-ok i o content e = elim (Bool-cases o.test_mode) [
    | inl test ↦
        subst
          (λ b.
            (if b
              then fetch_direct http i o
              else send_soap_request http i o >>= get_soap_result http)
            ≡ ok content)
          test e
    | inr real ↦ cc (fetch_once-soap i o real, e)
  ]

  -- What Fetch returns is the whole body of a reply with the status 200 to a GET of the URL of the
  -- configuration, with its user agent and the two accepted types as headers and no body, at one of
  -- MaxRetries attempts, and it is not empty.
  pub fetch-ok :
      (ended : ℕ → Option E) (now : ℕ) (o : OfficialSource) (content : Bytes)
      → (fetch http ended now o).0 ≡ ok content
      → (i : ℕ) × (reply : HttpReply E) × (i < pos_part o.config.max_retries)
        × (http.send i (record {
          method = bytes "GET";
          url = o.config.url;
          headers =
              (bytes "User-Agent", o.config.user_agent)
              ∷ (bytes "Accept", bytes "text/csv, application/xml")
              ∷ [];
          content = [];
        })
            ≡ ok reply)
        × (reply.status ≡ 200)
        × (reply.content ≡ ok content)
        × (is_empty content ≡ false)
  unfolding fetch
  fetch-ok ended now o content e =
      let (i, below, found) =
        fetch_attempts-ok ended 0 (pos_part o.config.max_retries) none o content e in
      let (read, full) = fetch_direct-ok i o content (fetch_once-ok i o content found) in
      let (reply, sent, status, body) = exchange-ok http i (direct_request o) content read in
      (i, reply, omega arith, sent, status, body, full)

  -- Without the test mode, which nothing in the program sets, Fetch returns an error whatever the
  -- network answers.
  pub fetch-soap :
      (ended : ℕ → Option E) (now : ℕ) (o : OfficialSource)
      → o.test_mode ≡ false
      → is_ok (fetch http ended now o).0 ≡ false
  fetch-soap ended now o real = elim (Result-cases (fetch http ended now o).0) [
    | inr (e, failed) ↦ rw failed
    | inl (content, found) ↦
        let (i, below, once) =
          fetch_attempts-ok ended 0 (pos_part o.config.max_retries) none o content
            (unfold fetch in found) in
        cc (fetch_once-soap i o real, once)
  ]
