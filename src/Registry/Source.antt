-- ===== src/Registry/Source.antt =====
-- internal/infrastructure/registry/source.go
use rkn_checker.Prelude.{ℕ, ◌*◌, ◌^◌, Bool, false, List, [], ◌∷◌, Result}
use rkn_checker.Prelude.Integers.{ℤ, pos}
use rkn_checker.Text.{Bytes, bytes}

-- Source; the number is that of the attempt in a call of FetchRegistry
pub record Source (E : Type 0) : Type 0 where
  pub name : Bytes
  pub is_healthy : ℕ → Bool
  pub fetch : ℕ → Result E Bytes

-- RKNConfig; durations in nanoseconds
pub record RknConfig : Type 0 where
  pub request_file_path : Bytes
  pub signature_file_path : Bytes
  pub emchd_file_path : Bytes
  pub emchd_signature_path : Bytes
  pub dump_format_version : Bytes
  pub poll_interval : ℤ
  pub max_poll_attempts : ℤ
  pub cert_file_path : Bytes
  pub key_file_path : Bytes
  pub ca_file_path : Bytes
  pub insecure_skip_verify : Bool

-- SourceConfig; SourceType is a string
pub record SourceConfig : Type 0 where
  pub source_type : Bytes
  pub url : Bytes
  pub timeout : ℤ
  pub max_retries : ℤ
  pub user_agent : Bytes
  pub rkn : RknConfig

-- SourceTypeOfficial
abbrev pub official_type : Bytes
official_type = bytes "official"

-- time.Second, and a count of them
abbrev pub seconds : ℕ → ℤ
seconds n = pos (n * 10 ^ 9)

-- DefaultSourceConfigs
unfoldable pub default_source_configs : List SourceConfig
default_source_configs =
    record {
      source_type = official_type;
      url = bytes "https://vigruzki.rkn.gov.ru/services/OperatorRequest/";
      timeout = seconds 60;
      max_retries = pos 2;
      user_agent = bytes "RKN-Checker/1.0";
      rkn = record {
        request_file_path = [];
        signature_file_path = [];
        emchd_file_path = [];
        emchd_signature_path = [];
        dump_format_version = bytes "2.4";
        poll_interval = seconds 30;
        max_poll_attempts = pos 20;
        cert_file_path = [];
        key_file_path = [];
        ca_file_path = [];
        insecure_skip_verify = false;
      };
    }
    ∷ []
