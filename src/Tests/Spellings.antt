-- ===== src/Tests/Spellings.antt =====
-- Two spellings of one name.
use rkn_checker.Prelude.{◌≡◌, refl, inl, inr, true, false}
use rkn_checker.Text.{bytes, bytes_eq, is_empty, contains, trim_prefix, has_prefix}
use rkn_checker.Domain.Url.{is_valid_domain}
use rkn_checker.Normalizer.{with_scheme, all_digits}
use rkn_checker.Normalizer.Port.{HasNoColon}
use rkn_checker.Normalizer.Spellings.{IsPlain, Spells}
use rkn_checker.Service.{check_url}
use rkn_checker.Service.Answers.{url_normalizer, memory_registry_store}
use rkn_checker.Service.Spellings.{check_url-Spells}
use rkn_checker.Tests.Platforms.{small_platform, small_float}
use rkn_checker.Tests.Stores.{empty_store}

name-IsPlain : IsPlain small_platform (bytes "example.com")
unfolding has_prefix bytes_eq
name-IsPlain = record { lower = refl; no_ip = refl; no_bracket = refl; ascii = refl }

www_name-IsPlain : IsPlain small_platform (bytes "www.example.com")
unfolding has_prefix bytes_eq
www_name-IsPlain = record { lower = refl; no_ip = refl; no_bracket = refl; ascii = refl }

long_host-HasNoColon : HasNoColon (bytes "www.Example.com")
long_host-HasNoColon = (
  refl,
  (
    refl,
    (
      refl,
      (
        refl,
        (refl, (refl, (refl, (refl, (refl, (refl, (refl, (refl, (refl, (refl, (refl, tt))))))))))),
      ),
    ),
  ),
)

short_host-HasNoColon : HasNoColon (bytes "EXAMPLE.com")
short_host-HasNoColon =
    (refl, (refl, (refl, (refl, (refl, (refl, (refl, (refl, (refl, (refl, (refl, tt)))))))))))

long-Spells : Spells small_platform (bytes "http://www.Example.com:80/x") (bytes "example.com")
unfolding with_scheme is_empty contains trim_prefix all_digits
long-Spells = record {
  host = bytes "www.Example.com";
  named = refl;
  plain = long_host-HasNoColon;
  letters = inr refl;
  full = refl;
  parsed = inr (bytes "80", refl, refl, refl);
}

short-Spells : Spells small_platform (bytes "EXAMPLE.com") (bytes "example.com")
unfolding with_scheme is_empty contains trim_prefix
short-Spells = record {
  host = bytes "EXAMPLE.com";
  named = refl;
  plain = short_host-HasNoColon;
  letters = inl refl;
  full = refl;
  parsed = inl refl;
}

valid_name : is_valid_domain (bytes "example.com") ≡ true
unfolding is_valid_domain
valid_name = refl

no_www : has_prefix (bytes "example.com") (bytes "www.") ≡ false
unfolding has_prefix bytes_eq
no_www = refl

check_url-Spells_example :
    check_url
      (url_normalizer small_platform)
      (memory_registry_store small_platform small_float)
      7
      empty_store
      (bytes "http://www.Example.com:80/x")
    ≡ check_url
        (url_normalizer small_platform)
        (memory_registry_store small_platform small_float)
        7
        empty_store
        (bytes "EXAMPLE.com")
check_url-Spells_example =
    check_url-Spells small_platform small_float 7 empty_store (bytes "example.com")
      (bytes "http://www.Example.com:80/x") (bytes "EXAMPLE.com") valid_name no_www name-IsPlain
      www_name-IsPlain long-Spells short-Spells
