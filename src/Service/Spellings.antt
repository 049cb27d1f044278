-- ===== src/Service/Spellings.antt =====
-- CheckURL at the spellings of one name.
use rkn_checker.Prelude.{ℕ, ◌≡◌, ap, ◌∙◌, sym, true, false, ◌++◌, err, ok, ◌>>=◌, if◌then◌else◌}
use rkn_checker.Text.{Bytes, bytes, is_empty, has_prefix}
use rkn_checker.Platform.{Platform}
use rkn_checker.Domain.Url.{is_valid_domain, invalid_url}
use rkn_checker.Normalizer.Spellings.{IsPlain, Spells, normalize-Spells}
use rkn_checker.Storage.Bloom.{FloatMath}
use rkn_checker.Storage.MemoryStore
use rkn_checker.Storage.MemoryStore.{MemoryStore}
use rkn_checker.Service.{check_url}
use rkn_checker.Service.Answers.{url_normalizer, memory_registry_store, check_url_lem}

-- CheckURL gives the same answer for any two URLs whose hosts are one valid name up to the case of
-- the letters, a leading www. and a port, whatever the store holds. The name does not start with
-- www. itself, and the platform is assumed to leave it as it is, with and without www.
pub check_url-Spells :
    (platform : Platform) (float : FloatMath) (now : ℕ) (store : MemoryStore)
    (name raw raw' : Bytes)
    → is_valid_domain name ≡ true
    → has_prefix name (bytes "www.") ≡ false
    → IsPlain platform name
    → IsPlain platform (bytes "www." ++ name)
    → Spells platform raw name
    → Spells platform raw' name
    → check_url (url_normalizer platform) (memory_registry_store platform float) now store raw
      ≡ check_url (url_normalizer platform) (memory_registry_store platform float) now store raw'
check_url-Spells platform float now store name raw raw' valid bare plain plain_www s s' =
    check_url_lem platform float now store raw
    ∙ ap
        (λ r. r >>= λ host.
          if is_empty host then err invalid_url else ok (MemoryStore.is_blocked now store host))
        (normalize-Spells platform name raw valid bare plain plain_www s
          ∙ sym (normalize-Spells platform name raw' valid bare plain plain_www s'))
    ∙ sym (check_url_lem platform float now store raw')
