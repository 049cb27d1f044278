-- ===== src/Normalizer/Canonical.antt =====
-- What the normalizer can return.
use mathlib.Core.Path.{subst}
use rkn_checker.Prelude.{◌≡◌, ◌⊎◌, inl, inr, sym, true, Option-cases, Bool-cases, ok, ok_inj, ◌&&◌}
use rkn_checker.Text.{Bytes, bytes, is_empty, has_prefix, has_suffix}
use rkn_checker.Platform.{Platform}
use rkn_checker.Domain.Url.{is_valid_domain}
use rkn_checker.Normalizer.{
  normalize_ip, normalize_domain, normalize_host, without_www, normalize, remove_port, with_scheme,
  trim_brackets,
}

module _ (platform : Platform) where
  -- A valid domain name, or the text of an address.
  abbrev pub IsCanonical : Bytes → Type 0
  IsCanonical name =
      (is_valid_domain name ≡ true) ⊎ ((address : Bytes) × (name ≡ platform.ip_string address))

  normalize_ip-IsCanonical : (ip name : Bytes) → normalize_ip platform ip ≡ name → IsCanonical name
  unfolding normalize_ip
  normalize_ip-IsCanonical ip name e = elim (Option-cases (platform.ip_to4 ip)) [
    | inl v6 ↦ inr (ip, sym (rw (normalize_ip, v6) at e))
    | inr (v4, found) ↦ inr (v4, sym (rw (normalize_ip, found) at e))
  ]

  normalize_domain-IsCanonical :
      (host name : Bytes) → normalize_domain platform host ≡ ok name → IsCanonical name
  unfolding normalize_domain
  normalize_domain-IsCanonical host name e = elim (Option-cases (platform.to_ascii host)) [
    | inl refused ↦ cc (rw (normalize_domain, refused) at e)
    | inr (ascii, found) ↦
        let bare = without_www platform (platform.to_lower ascii) in
        elim (Bool-cases (is_valid_domain bare)) [
          | inr bad ↦ cc (rw (normalize_domain, found, bad) at e)
          | inl valid ↦
              let same : bare ≡ name = ok_inj (rw (normalize_domain, found, valid) at e) in
              inl (subst (λ n. is_valid_domain n ≡ true) same valid)
        ]
  ]

  normalize_host-IsCanonical :
      (host name : Bytes) → normalize_host platform host ≡ ok name → IsCanonical name
  unfolding normalize_host
  normalize_host-IsCanonical host name e = elim (Option-cases (platform.parse_ip host)) [
    | inr (ip, found) ↦ normalize_ip-IsCanonical ip name (ok_inj (rw (normalize_host, found) at e))
    | inl no_ip ↦ elim (Bool-cases (has_prefix host (bytes "[") && has_suffix host (bytes "]"))) [
      | inr plain ↦ normalize_domain-IsCanonical host name (rw (normalize_host, no_ip, plain) at e)
      | inl framed ↦ elim (Option-cases (platform.parse_ip (trim_brackets host))) [
        | inl refused ↦ cc (rw (normalize_host, no_ip, framed, refused) at e)
        | inr (ip, found) ↦
            normalize_ip-IsCanonical ip name
              (ok_inj (rw (normalize_host, no_ip, framed, found) at e))
      ]
    ]
  ]

  -- Whatever the raw URL, what Normalize returns is a name that IsValidDomain accepts, or the text
  -- that net.IP.String gives of an address.
  pub normalize-IsCanonical :
      (raw name : Bytes) → normalize platform raw ≡ ok name → IsCanonical name
  unfolding normalize
  normalize-IsCanonical raw name e = elim (Bool-cases (is_empty raw)) [
    | inl empty ↦ cc (rw (normalize, empty) at e)
    | inr full ↦
        let text = with_scheme platform (platform.trim_space raw) in
        elim (Option-cases (platform.url_host text)) [
          | inl refused ↦ cc (rw (normalize, full, refused) at e)
          | inr (host, parsed) ↦ elim (Bool-cases (is_empty host)) [
            | inl hostless ↦ cc (rw (normalize, full, parsed, hostless) at e)
            | inr named ↦
                normalize_host-IsCanonical (platform.to_lower (remove_port host)) name
                  (rw (normalize, full, parsed, named) at e)
          ]
        ]
  ]
