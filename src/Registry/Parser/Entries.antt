-- ===== src/Registry/Parser/Entries.antt =====
-- What holds of the entries that the parser stores, one after another.
use mathlib.Core.Path.{subst}
use rkn_checker.Prelude.{
  ℕ, zero, ◌≡◌, ◌⊎◌, inl, inr, Bool, true, false, List, [], ◌∷◌, some, Bool-cases, Result-cases,
  All, All-append, arith, suc, ok, ok_inj, length, length-append, is_ok,
}
use rkn_checker.Text.{Bytes, bytes, is_empty, has_prefix, split}
use rkn_checker.Platform.{Platform}
use rkn_checker.Domain.Blocking.{
  BlockingType, domain, wildcard, ip, url_path, sni, unknown, new_blocking_rule, validate,
}
use rkn_checker.Domain.Registry.{
  RegistryEntry, Registry, new_registry_entry, add_entry, to_blocking_rule, entry_pattern,
  entry_is_valid,
}
use rkn_checker.Registry.Parser.{
  Formats, entry_type, with_id, store_entry, categorize_entry, strip_protocol, parse_parts,
  parse_csv_record, parse_records, or_keep,
}

abbrev is_wildcard_type : BlockingType → Bool
is_wildcard_type wildcard = true
is_wildcard_type _ = false

module _ (platform : Platform) where
  -- The entry gives a rule, or is a wildcard.
  abbrev pub IsStored : RegistryEntry → Type 0
  IsStored e = (is_wildcard_type e.entry_type ≡ true) ⊎ (is_ok (to_blocking_rule platform e) ≡ true)

  pub record IsParsed (r : Registry) : Type 0 where
    pub counted : r.entry_count ≡ length r.entries
    pub stored : All IsStored r.entries

  new_registry_entry-IsStored :
      (now : ℕ) (t : BlockingType) (value : Bytes) (e : RegistryEntry)
      → (is_wildcard_type t ≡ true) ⊎ (has_prefix value (bytes "*.") ≡ false)
      → new_registry_entry platform now t value ≡ ok e
      → IsStored e
  unfolding new_registry_entry to_blocking_rule entry_pattern new_blocking_rule validate
  new_registry_entry-IsStored now domain value e plain made = ground arith
  new_registry_entry-IsStored now ip value e plain made = ground arith
  new_registry_entry-IsStored now url_path value e plain made = ground arith
  new_registry_entry-IsStored now wildcard value e plain made = ground arith
  new_registry_entry-IsStored now sni value e plain made = ground arith
  new_registry_entry-IsStored now unknown value e plain made = ground arith

  entry_type-plain :
      (value : Bytes) (t : BlockingType)
      → entry_type platform value ≡ ok t
      → (is_wildcard_type t ≡ true) ⊎ (has_prefix value (bytes "*.") ≡ false)
  unfolding entry_type
  entry_type-plain value t e = ground arith

  add_entry-IsParsed :
      (r r' : Registry) (e : RegistryEntry)
      → IsParsed r
      → IsStored e
      → add_entry r (some e) ≡ ok r'
      → IsParsed r'
  unfolding add_entry
  add_entry-IsParsed r r' e parsed good added = elim (Bool-cases (entry_is_valid e)) [
    | inr bad ↦ cc (rw (add_entry, bad) at added)
    | inl valid ↦ subst IsParsed (ok_inj (rw (add_entry, valid) at added)) (record {
      counted = omega (arith, parsed.counted, length-append r.entries (e ∷ []));
      stored = All-append IsStored r.entries (e ∷ []) parsed.stored (good, tt);
    })
  ]

entry_pattern-id :
    (t : BlockingType) (e : RegistryEntry) (name : Bytes)
    → entry_pattern t (record e { id = name }) ≡ entry_pattern t e
unfolding entry_pattern
entry_pattern-id t e name = ground arith

to_blocking_rule-id :
    (platform : Platform) (e : RegistryEntry) (name : Bytes)
    → to_blocking_rule platform (record e { id = name }) ≡ to_blocking_rule platform e
unfolding to_blocking_rule
to_blocking_rule-id platform e name = rw (to_blocking_rule, entry_pattern-id e.entry_type e name)

module _ {E : Type 0} (platform : Platform) (formats : Formats E) (now : ℕ) where
  with_id-IsStored :
      (n : ℕ) (e : RegistryEntry)
      → IsStored platform e
      → IsStored platform (with_id platform formats now n e)
  unfolding with_id
  with_id-IsStored zero e good = good
  with_id-IsStored (suc n) e good = rw (to_blocking_rule-id platform e _) good

  store_entry-IsParsed :
      (t : BlockingType) (value : Bytes) (r r' : Registry)
      → (is_wildcard_type t ≡ true) ⊎ (has_prefix value (bytes "*.") ≡ false)
      → IsParsed platform r
      → store_entry platform formats now t value r ≡ ok r'
      → IsParsed platform r'
  unfolding store_entry
  store_entry-IsParsed t value r r' plain parsed done =
      elim (Result-cases (new_registry_entry platform now t value)) [
        | inr (bad, failed) ↦ cc (rw (store_entry, failed) at done)
        | inl (e, made) ↦
            let e' = with_id platform formats now (length r.entries) e in
            let good : IsStored platform e' =
              with_id-IsStored (length r.entries) e
                (new_registry_entry-IsStored platform now t value e plain made) in
            elim (Result-cases (add_entry r (some e'))) [
              | inr (bad, failed) ↦ cc (rw (store_entry, made, failed) at done)
              | inl (r1, added) ↦
                  subst (IsParsed platform) (ok_inj (rw (store_entry, made, added) at done))
                    (add_entry-IsParsed platform r r1 e' parsed good added)
            ]
      ]

  categorize_entry-IsParsed :
      (entry : Bytes) (r r' : Registry)
      → IsParsed platform r
      → categorize_entry platform formats now entry r ≡ ok r'
      → IsParsed platform r'
  unfolding categorize_entry
  categorize_entry-IsParsed entry r r' parsed done =
      let value = strip_protocol platform (platform.to_lower entry) in
      elim (Result-cases (entry_type platform value)) [
        | inr (bad, failed) ↦ cc (rw (categorize_entry, failed) at done)
        | inl (t, found) ↦
            store_entry-IsParsed t value r r' (entry_type-plain platform value t found) parsed
              (rw (categorize_entry, found) at done)
      ]

  or_keep-IsParsed :
      (entry : Bytes) (r : Registry)
      → IsParsed platform r
      → IsParsed platform
          (or_keep platform formats now r (categorize_entry platform formats now entry r))
  or_keep-IsParsed entry r parsed =
      elim (Result-cases (categorize_entry platform formats now entry r)) [
        | inr (bad, failed) ↦ rw failed parsed
        | inl (r', done) ↦ rw done (categorize_entry-IsParsed entry r r' parsed done)
      ]

  parse_parts-IsParsed :
      (parts : List Bytes) (r : Registry)
      → IsParsed platform r
      → IsParsed platform (parse_parts platform formats now parts r)
  unfolding parse_parts
  parse_parts-IsParsed [] r parsed = parsed
  parse_parts-IsParsed (part ∷ parts) r parsed =
      elim (Bool-cases (is_empty (platform.trim_space part))) [
        | inl empty ↦ rw empty (parse_parts-IsParsed parts r parsed)
        | inr full ↦
            rw full
              (parse_parts-IsParsed parts _ (or_keep-IsParsed (platform.trim_space part) r parsed))
      ]

  parse_csv_record-IsParsed :
      (fields : List Bytes) (r : Registry)
      → IsParsed platform r
      → IsParsed platform (parse_csv_record platform formats now fields r)
  unfolding parse_csv_record
  parse_csv_record-IsParsed [] r parsed = parsed
  parse_csv_record-IsParsed (id ∷ []) r parsed = parsed
  parse_csv_record-IsParsed (id ∷ field ∷ columns) r parsed =
      elim (Bool-cases (is_empty (platform.trim_space field))) [
        | inl empty ↦ rw empty parsed
        | inr full ↦
            rw full (parse_parts-IsParsed (split b'|' (platform.trim_space field)) r parsed)
      ]

  pub parse_records-IsParsed :
      (records : List (List Bytes)) (r : Registry)
      → IsParsed platform r
      → IsParsed platform (parse_records platform formats now records r)
  unfolding parse_records
  parse_records-IsParsed [] r parsed = parsed
  parse_records-IsParsed (fields ∷ records) r parsed =
      parse_records-IsParsed records (parse_csv_record platform formats now fields r)
        (parse_csv_record-IsParsed fields r parsed)
