-- ===== src/Registry/Exchange.antt =====
-- The exchanges over HTTP of internal/infrastructure/registry/official_source.go, with net/http as a
-- parameter.
use rkn_checker.Prelude.{
  ℕ, ◌≡◌, ◌∙◌, ◌==◌, not, Option, none, some, Result, ok, err, if◌then◌else◌, Bool-cases,
  Option-cases, Result-cases, inl, inr, arith,
}
use rkn_checker.Text.{Bytes}
use rkn_checker.Storage.Dict.{Dict}

pub record HttpRequest : Type 0 where
  pub method : Bytes
  pub url : Bytes
  pub headers : Dict Bytes
  pub content : Bytes

pub record HttpReply (E : Type 0) : Type 0 where
  pub status : ℕ
  -- resp.Status, the line with its text
  pub status_line : Bytes
  -- what io.ReadAll returns of the body
  pub content : Result E Bytes

-- net/http; the number counts the exchanges of a call
pub record Http (E : Type 0) : Type 0 where
  -- the error of http.NewRequestWithContext, if it refuses a method and a URL
  pub refused : Bytes → Bytes → Option E
  -- http.Client.Do
  pub send : ℕ → HttpRequest → Result E (HttpReply E)

pub data HttpError (E : Type 0) : Type 0 where
  creating sending reading : E → HttpError E
  bad_status : ℕ → Bytes → HttpError E

module _ {E : Type 0} (http : Http E) where
  -- A request, its reply with the status 200, and the whole body.
  unfoldable pub exchange : ℕ → HttpRequest → Result (HttpError E) Bytes
  exchange i request =
      let answered : Result (HttpError E) Bytes = elim (http.send i request) [
        | err e ↦ err (sending e)
        | ok reply ↦
            let read : Result (HttpError E) Bytes = elim (reply.content) [
              | err e ↦ err (reading e)
              | ok content ↦ ok content
            ] in
            if not (reply.status == 200)
            then err (bad_status reply.status reply.status_line)
            else read
      ] in
      elim (http.refused request.method request.url) [ some e ↦ err (creating e) | none ↦ answered ]

  ok_of :
      {a b : Bytes}
      → Path (Result (HttpError E) Bytes) (ok a) (ok b)
      → Path (Result E Bytes) (ok a) (ok b)
  ok_of e = cc

  pub exchange-ok :
      (i : ℕ) (request : HttpRequest) (content : Bytes)
      → exchange i request ≡ ok content
      → (reply : HttpReply E) × (http.send i request ≡ ok reply)
        × (reply.status ≡ 200)
        × (reply.content ≡ ok content)
  unfolding exchange
  exchange-ok i request content e = elim (Option-cases (http.refused request.method request.url)) [
    | inr (bad, refused) ↦ cc (rw (exchange, refused) at e)
    | inl accepted ↦ elim (Result-cases (http.send i request)) [
      | inr (bad, failed) ↦ cc (rw (exchange, accepted, failed) at e)
      | inl (reply, sent) ↦ elim (Bool-cases (reply.status == 200)) [
        | inr other ↦ cc (rw (exchange, accepted, sent, other) at e)
        | inl good ↦ elim (Result-cases reply.content) [
          | inr (bad, unread) ↦ cc (rw (exchange, accepted, sent, good, unread) at e)
          | inl (all, read) ↦ (
            reply,
            sent,
            ground arith,
            read ∙ ok_of (rw (exchange, accepted, sent, good, read) at e),
          )
        ]
      ]
    ]
  ]
