-- ===== src/Delivery/Http.antt =====
-- What the code uses of net/http and encoding/json. A handler is what it does to its writer and to
-- the log, in order, and whether it panics at the end.
use rkn_checker.Prelude.{ℕ, Bool, false, List, [], ◌∷◌, Option, none, some}
use rkn_checker.Text.{Bytes}

pub record Request : Type 0 where
  pub method : Bytes
  pub path : Bytes
  -- r.Header.Get
  pub header : Bytes → Bytes
  pub remote_addr : Bytes
  pub content : Bytes

-- What the logging middleware logs of a request, but its duration.
pub record AccessEntry : Type 0 where
  pub method : Bytes
  pub path : Bytes
  pub status : ℕ
  pub user_agent : Bytes
  pub remote_ip : Bytes

pub data Entry : Type 0 where
  failed completed : AccessEntry → Entry
  panicked : (method path : Bytes) → Entry
  error : Bytes → Entry

-- `encode` is json.NewEncoder(w).Encode, `http_error` is http.Error.
pub data Effect (J : Type 0) : Type 0 where
  set_header : (name value : Bytes) → Effect J
  write_header : ℕ → Effect J
  encode : J → Effect J
  http_error : Bytes → ℕ → Effect J
  log : Entry → Effect J

pub record Run (J : Type 0) : Type 0 where
  pub effects : List (Effect J)
  pub panics : Bool

abbrev pub Handler : Type 0 → Type 0
Handler J = Request → Run J

abbrev pub done : {J : Type 0} → List (Effect J) → Run J
done effects = record { effects = effects; panics = false }

-- net/http, encoding/json and strings; `decode_url` is what Decode leaves in the field `url` of a
-- CheckURLRequest, and `encodes` whether Encode returns nil.
pub record Library (J : Type 0) : Type 0 where
  pub decode_url : Bytes → Option Bytes
  pub encodes : J → Bool
  pub status_text : ℕ → Bytes
  pub trim_space : Bytes → Bytes

-- The status that a client is sent: http.ResponseWriter takes the first and ignores the others.
unfoldable pub sent_status : {J : Type 0} → List (Effect J) → Option ℕ
sent_status [] = none
sent_status (write_header code ∷ es) = some code
sent_status (http_error message code ∷ es) = some code
sent_status (encode body ∷ es) = some 200
sent_status (set_header name value ∷ es) = sent_status es
sent_status (log entry ∷ es) = sent_status es

-- The first body that is encoded.
unfoldable pub sent_body : {J : Type 0} → List (Effect J) → Option J
sent_body [] = none
sent_body (encode body ∷ es) = some body
sent_body (_ ∷ es) = sent_body es

-- The statuses in the entries about requests.
unfoldable pub logged_statuses : {J : Type 0} → List (Effect J) → List ℕ
logged_statuses [] = []
logged_statuses (log (failed entry) ∷ es) = entry.status ∷ logged_statuses es
logged_statuses (log (completed entry) ∷ es) = entry.status ∷ logged_statuses es
logged_statuses (_ ∷ es) = logged_statuses es
