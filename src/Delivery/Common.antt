-- ===== src/Delivery/Common.antt =====
-- internal/delivery/common. Nothing in the program calls these.
use rkn_checker.Prelude.{ℕ, Bool, true, false, List, [], ◌∷◌, Option, none, some, if◌then◌else◌}
use rkn_checker.Text.{Bytes, bytes}
use rkn_checker.Domain.Url.{DomainError, empty_url, invalid_url, registry_entry_invalid}
use rkn_checker.Delivery.Http.{Effect, set_header, write_header, encode, http_error, Library}

-- MapDomainErrorToHTTP
unfoldable pub map_domain_error_to_http : DomainError → ℕ
map_domain_error_to_http empty_url = 400
map_domain_error_to_http invalid_url = 400
map_domain_error_to_http registry_entry_invalid = 400
map_domain_error_to_http _ = 500

-- The codes of google.golang.org/grpc/codes that the program names.
pub data Code : Type 0 where
  ok_code unknown_code invalid_argument internal : Code

-- MapDomainErrorToGRPC
unfoldable pub map_domain_error_to_grpc : DomainError → Code
map_domain_error_to_grpc empty_url = invalid_argument
map_domain_error_to_grpc invalid_url = invalid_argument
map_domain_error_to_grpc registry_entry_invalid = invalid_argument
map_domain_error_to_grpc _ = internal

-- What status.Error makes.
pub record Status : Type 0 where
  pub code : Code
  pub message : Bytes

-- NewGRPCError
unfoldable pub new_grpc_error : DomainError → Bytes → Status
new_grpc_error e message = record { code = map_domain_error_to_grpc e; message = message }

pub record ErrorInfo : Type 0 where
  pub code : ℕ
  pub message : Bytes
  pub error_type : Bytes

pub record Response (A : Type 0) : Type 0 where
  pub success : Bool
  pub data_of : Option A
  pub error : Option ErrorInfo

module _ {J : Type 0} (library : Library J) where
  -- writeJSONResponse, and WriteJSONResponse of rest/models.go, which is the same
  unfoldable pub write_json_response : ℕ → J → List (Effect J)
  write_json_response code body =
      set_header (bytes "Content-Type") (bytes "application/json")
      ∷ write_header code
      ∷ encode body
      ∷ (if library.encodes body
          then []
          else http_error (bytes "Failed to encode response") 500 ∷ [])

module _ {A : Type 0} (library : Library (Response A)) where
  -- WriteSuccess
  unfoldable pub write_success : A → List (Effect (Response A))
  write_success a =
      write_json_response library 200 (record { success = true; data_of = some a; error = none })

  -- WriteError
  unfoldable pub write_error : ℕ → Bytes → List (Effect (Response A))
  write_error code message = write_json_response library code (record {
    success = false;
    data_of = none;
    error = some (record { code = code; message = message; error_type = library.status_text code });
  })
