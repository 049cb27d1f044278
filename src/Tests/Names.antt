-- ===== src/Tests/Names.antt =====
-- The normalizer on the platform in miniature.
use rkn_checker.Prelude.{◌≡◌, refl, ok}
use rkn_checker.Text.{bytes, is_empty, has_prefix, has_suffix, contains, trim_prefix}
use rkn_checker.Domain.Url.{is_valid_domain}
use rkn_checker.Normalizer.{
  normalize, normalize_host, normalize_domain, normalize_ip, without_www, with_scheme, remove_port,
  all_digits,
}
use rkn_checker.Normalizer.Canonical.{IsCanonical, normalize-IsCanonical}
use rkn_checker.Normalizer.Port.{HasNoColon, remove_port-append}
use rkn_checker.Tests.Platforms.{small_platform}

normalize_runs :
    normalize small_platform (bytes "http://www.Example.com:80/x") ≡ ok (bytes "example.com")
unfolding normalize normalize_host normalize_domain without_www with_scheme remove_port is_empty
    has_prefix has_suffix contains trim_prefix is_valid_domain
normalize_runs = refl

address_runs : normalize small_platform (bytes "10.0.0.1:443") ≡ ok (bytes "10.0.0.1")
unfolding normalize normalize_host normalize_ip with_scheme remove_port is_empty has_prefix
    has_suffix contains trim_prefix
address_runs = refl

normalize-IsCanonical_example : IsCanonical small_platform (bytes "example.com")
normalize-IsCanonical_example =
    normalize-IsCanonical small_platform (bytes "http://www.Example.com:80/x") (bytes "example.com")
      normalize_runs

host-HasNoColon : HasNoColon (bytes "a.org")
host-HasNoColon = (refl, (refl, (refl, (refl, (refl, tt)))))

remove_port-append_example : remove_port (bytes "a.org:8080") ≡ bytes "a.org"
unfolding is_empty all_digits
remove_port-append_example =
    remove_port-append (bytes "a.org") (bytes "8080") host-HasNoColon refl refl
