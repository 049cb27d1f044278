-- ===== src/Tests/Platforms.antt =====
-- A platform in miniature: one address, URLs of the form scheme://host/path, ASCII letters.
use rkn_checker.Prelude.{
  ℕ, ◌+◌, ◌*◌, false, ◌&&◌, [], ◌∷◌, none, some, map, ltb, leb, ◌==◌, if◌then◌else◌, arith,
}
use rkn_checker.Text.{Bytes, bytes, bytes_eq, trim_prefix}
use rkn_checker.Platform.{Platform}
use rkn_checker.Storage.Bloom.{FloatMath}
use rkn_checker.Storage.Bloom.Bounds.{HasBits}

abbrev pub lower : ℕ → ℕ
lower c = if leb b'A' c && leb c b'Z' then c + 32 else c

abbrev pub up_to_slash : Bytes → Bytes
up_to_slash [] = []
up_to_slash (c ∷ s) = let rest = up_to_slash s in if c == b'/' then [] else c ∷ rest

abbrev pub small_platform : Platform
small_platform = record {
  parse_ip = λ s. if bytes_eq s (bytes "10.0.0.1") then some s else none;
  ip_to4 = λ ip. some ip;
  ip_string = λ ip. ip;
  url_host = λ s. some (up_to_slash (trim_prefix s (bytes "http://")));
  to_ascii = λ s. some s;
  to_lower = λ s. map lower s;
  trim_space = λ s. s;
}

-- Ten bits for each entry and seven rounds.
abbrev pub small_float : FloatMath
small_float = record {
  out_of_range = λ rate. false;
  one_percent = 0;
  bits_for = λ n rate. if ltb n 1000 then n * 10 else 10000;
  hashes_for = λ m n. 7;
}

pub small_float-HasBits : HasBits small_float
small_float-HasBits n h = ground arith
