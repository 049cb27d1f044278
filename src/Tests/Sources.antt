-- ===== src/Tests/Sources.antt =====
-- The parser and the client, with a CSV reader in miniature and sources that answer from memory.
use mathlib.Core.List.{Perm}
use rkn_checker.Prelude.{
  Any, ℕ, ◌+◌, ◌<◌, ◌≡◌, refl, true, false, List, [], ◌∷◌, ◌++◌, Option, none, Result, ok, err,
  length, map, inl, inr, some,
}
use rkn_checker.Text.{Bytes, bytes, split, bytes_eq, is_empty, contains, has_prefix, has_suffix}
use rkn_checker.Domain.Blocking.{BlockingType, domain, wildcard, ip}
use rkn_checker.Domain.Registry.{
  RegistryEntry, Registry, new_registry, new_registry_entry, add_entry, entry_is_valid,
  entry_pattern,
}
use rkn_checker.Domain.Url.{is_valid_ip, is_valid_domain, labels_are_valid}
use rkn_checker.Storage.MemoryStore.{MemoryStore, new_memory_store, is_blocked}
use rkn_checker.Storage.MemoryStore.Refinement.{update-ok}
use rkn_checker.Registry.Errors.{
  Error, empty_data, invalid_format, unsupported_format, Printer, error_text, outside,
  new_source_error, new_parsing_error_with_position, new_rkn_api_error,
}
use rkn_checker.Registry.Reported.{client_error, fetch_error}
use rkn_checker.Registry.Parser.Refused.{root_of, refusal, root_of-parse}
use rkn_checker.Registry.Parser.{
  Formats, parse, detect_format, parse_csv, parse_csv_text, parse_records, parse_csv_record,
  parse_parts, categorize_entry, entry_type, strip_protocol, store_entry, with_id, is_domain_name,
  is_ip_address, is_wildcard_name,
}
use rkn_checker.Registry.Parser.Entries.{IsParsed}
use rkn_checker.Registry.Parser.Stored.{parse-IsParsed}
use rkn_checker.Registry.Blocked.{is_blocked-parse}
use rkn_checker.Registry.Source.{Source}
use rkn_checker.Registry.Client.{
  SourceError, Client, order_sources, last_named, not_named, fetch_from_source, fetch_from,
  fetch_registry, on_fetch_success,
}
use rkn_checker.Registry.Client.Order.{AreDistinct, order_sources-Perm}
use rkn_checker.Registry.Client.Fallback.{Answers, FailsAlways}
use rkn_checker.Registry.Client.Rounds.{
  fetch_registry-Answers, fetch_registry-FailsAlways, order_sources-fetch_registry,
}
use rkn_checker.Tests.Platforms.{small_platform, small_float, small_float-HasBits}

abbrev formats : Formats ℕ
formats = record {
  read_csv = λ text. record { records = map (split b';') (split 10 text); failed = none };
  open_zip = λ content. err 1;
  decode_windows1251 = λ content. err 2;
  decimal = λ n. (48 + n) ∷ [];
}

abbrev pub content : Bytes
content = bytes "id;url" ++ (10 ∷ bytes "1;http://Example.com|*.bad.org|10.0.0.1|10.0.0.1:80")

abbrev entry : Bytes → BlockingType → Bytes → Bytes → RegistryEntry
entry id t name address = record {
  id = id;
  entry_type = t;
  domain_name = name;
  address = address;
  url = [];
  paths = [];
  added_date = 1;
  blocked_date = 0;
  decision = [];
  decision_org = [];
}

abbrev first_entry : RegistryEntry
first_entry = entry [] domain (bytes "example.com") []

abbrev other_entries : List RegistryEntry
other_entries =
    entry (bytes "rkn_1") wildcard (bytes "*.bad.org") []
    ∷ entry (bytes "rkn_2") ip [] (bytes "10.0.0.1")
    ∷ []

abbrev pub registry : Registry
registry = record (new_registry 1) {
  entries = first_entry ∷ other_entries;
  source = bytes "RKN Registry";
  entry_count = 3;
}

pub parse_runs : parse small_platform formats 1 content ≡ ok registry
unfolding parse is_empty detect_format parse_csv parse_csv_text parse_records split parse_csv_record
    parse_parts categorize_entry entry_type strip_protocol bytes_eq store_entry new_registry_entry
    is_valid_ip add_entry with_id entry_is_valid entry_pattern is_valid_domain labels_are_valid
    is_domain_name is_ip_address is_wildcard_name contains has_prefix has_suffix
parse_runs = refl

parse-IsParsed_example : IsParsed small_platform registry × (0 < length registry.entries)
parse-IsParsed_example = parse-IsParsed small_platform formats 1 content registry parse_runs

abbrev empty_store : MemoryStore
unfolding new_memory_store
empty_store = new_memory_store small_float 0

is_blocked-parse_example :
    (is_blocked 7
      (update-ok small_platform small_float 5 empty_store registry).0
      (bytes "example.com")).is_blocked
    ≡ true
is_blocked-parse_example =
    is_blocked-parse small_platform formats small_float 1 5 7 content registry empty_store
      (update-ok small_platform small_float 5 empty_store registry).0 [] other_entries first_entry
      (bytes "example.com") small_float-HasBits parse_runs
      (update-ok small_platform small_float 5 empty_store registry).1 refl refl

abbrev mirror : Source ℕ
mirror = record { name = bytes "mirror"; is_healthy = λ i. false; fetch = λ i. err 9 }

abbrev backup : Source ℕ
backup = record { name = bytes "backup"; is_healthy = λ i. true; fetch = λ i. ok content }

abbrev client : Client ℕ
client = record {
  sources = mirror ∷ backup ∷ [];
  last_successful_source = [];
  last_update_time = 0;
  consecutive_failures = 2;
}

abbrev pub reader : Bytes → Result (Error ℕ) Registry
reader = parse small_platform formats 1

abbrev pub fetched : Registry
fetched = record registry { source = bytes "backup"; last_updated = 4 }

abbrev remembering : Client ℕ
remembering = record client {
  last_successful_source = bytes "backup";
  last_update_time = 4;
  consecutive_failures = 0;
}

backup-Answers : Answers reader 4 (λ i. false) backup
unfolding fetch_from_source
backup-Answers i = (fetched, rw parse_runs)

mirror-FailsAlways : FailsAlways reader 4 (λ i. false) mirror
unfolding fetch_from_source
mirror-FailsAlways i = (_, refl)

names-AreDistinct : AreDistinct client.sources
unfolding bytes_eq
names-AreDistinct = ((refl, tt), (tt, tt))

client_runs : fetch_registry reader 4 (λ i. false) client ≡ (ok fetched, remembering)
unfolding fetch_registry fetch_from fetch_from_source order_sources is_empty on_fetch_success
client_runs = rw (fetch_registry, fetch_from, fetch_from_source, parse_runs)

order_runs : order_sources remembering ≡ backup ∷ mirror ∷ []
unfolding order_sources is_empty last_named not_named bytes_eq
order_runs = refl

order_sources-Perm_example : Perm (order_sources remembering) remembering.sources
order_sources-Perm_example = order_sources-Perm remembering names-AreDistinct

fetch_registry-Answers_example :
    (r : Registry) × Any (λ s. s.name ≡ r.source) client.sources
    × (fetch_registry reader 4 (λ i. false) client ≡ (
      ok r,
      record client {
        last_successful_source = r.source;
        last_update_time = 4;
        consecutive_failures = 0;
      },
    ))
fetch_registry-Answers_example =
    fetch_registry-Answers reader 4 (λ i. false) client names-AreDistinct (λ i. refl)
      (inr (inl backup-Answers))

fetch_registry-FailsAlways_example :
    (e : Option (SourceError ℕ (Error ℕ))) × (fetch_registry reader 4
        (λ i. false)
        (record client { sources = mirror ∷ [] })
      ≡ (err e, record client { sources = mirror ∷ []; consecutive_failures = 3 }))
fetch_registry-FailsAlways_example =
    fetch_registry-FailsAlways reader 4 (λ i. false) (record client { sources = mirror ∷ [] })
      (mirror-FailsAlways, tt)

order_sources-fetch_registry_example :
    (s : Source ℕ) × (rest : List (Source ℕ)) × (order_sources remembering ≡ s ∷ rest)
    × (s.name ≡ bytes "backup")
unfolding is_empty
order_sources-fetch_registry_example =
    order_sources-fetch_registry reader 4 (λ i. false) client remembering fetched refl client_runs

root_of-parse_example :
    root_of (parse small_platform formats 1 (bytes "no separator")) ≡ refusal (bytes "no separator")
root_of-parse_example = root_of-parse small_platform formats 1 (bytes "no separator")

refusal_runs :
    (refusal [] ≡ some empty_data)
    × (refusal (bytes "a;b") ≡ some invalid_format)
    × (refusal (bytes "no separator") ≡ some unsupported_format)
    × (refusal (bytes "id;url") ≡ none)
unfolding refusal is_empty contains
refusal_runs = (refl, refl, refl, refl)

abbrev printer : Printer ℕ
printer = record {
  print = λ e. bytes "broken";
  quoted = λ s. s;
  decimal = λ n. bytes "7";
  rfc3339 = λ time. bytes "now";
}

error_runs :
    (error_text printer (
        new_source_error 3
          (bytes "mirror")
          (bytes "parse")
          (new_parsing_error_with_position (bytes "csv") 7 0 (outside 5)))
      ≡ bytes
          "registry source mirror failed during parse: parsing csv format failed at line 7, column 7: broken (at now)")
    × (error_text printer (client_error 3 (fetch_error printer 3) (λ e. e) none)
        ≡ bytes "all registry sources failed: last error: <nil>")
    × (error_text printer (new_rkn_api_error (bytes "1") (bytes "m") (bytes "op"))
        ≡ bytes "RKN API error [1] during op: m")
unfolding error_text client_error new_parsing_error_with_position new_rkn_api_error
error_runs = (refl, refl, refl)
