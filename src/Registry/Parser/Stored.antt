-- ===== src/Registry/Parser/Stored.antt =====
-- What holds of the registry that Parse returns.
use rkn_checker.Prelude.{
  ℕ, ◌<◌, ◌≡◌, inl, inr, refl, List, [], ◌∷◌, Option, none, some, Option-cases, Bool-cases,
  Result-cases, arith, Result, ok, err, length, drop, ◌==◌,
}
use rkn_checker.Text.{Bytes, bytes, is_empty, has_suffix}
use rkn_checker.Platform.{Platform}
use rkn_checker.Domain.Registry.{Registry, new_registry, registry_size}
use rkn_checker.Registry.Errors.{Error}
use rkn_checker.Registry.Parser.{
  Formats, parse_records, parse_csv_text, parse_csv, parse_files, parse_zip, parse, parse_as,
  detect_format, Format, csv, zip,
}
use rkn_checker.Registry.Parser.Entries.{IsParsed, parse_records-IsParsed}

module _ {E : Type 0} (platform : Platform) (formats : Formats E) (now : ℕ) where
  no_entries-IsParsed :
      IsParsed platform (record (new_registry now) { source = bytes "RKN Registry" })
  no_entries-IsParsed = record { counted = refl; stored = tt }

  -- What a reader of one text returns is well formed and not empty.
  abbrev IsGood : Result (Error E) Registry → Type 0
  IsGood (err e) = Unit
  IsGood (ok r) = IsParsed platform r × (0 < length r.entries)

  parse_csv_text-IsGood : (text : Bytes) → IsGood (parse_csv_text platform formats now text)
  unfolding parse_csv_text
  parse_csv_text-IsGood text =
      let registry =
        parse_records platform formats now (drop 1 (formats.read_csv text).records)
          (record (new_registry now) { source = bytes "RKN Registry" }) in
      let parsed =
        parse_records-IsParsed platform formats now (drop 1 (formats.read_csv text).records) _
          no_entries-IsParsed in
      elim (Option-cases (formats.read_csv text).failed) [
        | inr (bad, failed) ↦ rw (parse_csv_text, failed) tt
        | inl clean ↦ elim (Bool-cases (registry_size registry == 0)) [
          | inl empty ↦ rw (parse_csv_text, clean, empty) tt
          | inr full ↦ rw (parse_csv_text, clean, full) (parsed, ground arith)
        ]
      ]

  parse_csv-IsGood : (content : Bytes) → IsGood (parse_csv platform formats now content)
  unfolding parse_csv
  parse_csv-IsGood content =
      let first = parse_csv_text-IsGood content in
      elim (Result-cases (parse_csv_text platform formats now content)) [
        | inl (r, done) ↦ rw (parse_csv, done) (rw done at first)
        | inr (e, failed) ↦ elim (Result-cases (formats.decode_windows1251 content)) [
          | inr (bad, refused) ↦ rw (parse_csv, failed, refused) tt
          | inl (text, decoded) ↦
              let second = parse_csv_text-IsGood text in
              elim (Result-cases (parse_csv_text platform formats now text)) [
                | inl (r, done) ↦ rw (parse_csv, failed, decoded, done) (rw done at second)
                | inr (e', failed') ↦ rw (parse_csv, failed, decoded, failed') tt
              ]
        ]
      ]

  parse_files-IsGood :
      (files : List (Bytes × Option Bytes)) → IsGood (parse_files platform formats now files)
  unfolding parse_files
  parse_files-IsGood [] = tt
  parse_files-IsGood ((name, none) ∷ files) = parse_files-IsGood files
  parse_files-IsGood ((name, some contents) ∷ files) =
      let others = parse_files-IsGood files in
      let one = parse_csv-IsGood contents in
      elim (Bool-cases (has_suffix (platform.to_lower name) (bytes ".csv"))) [
        | inr other ↦ rw other others
        | inl is_csv ↦ elim (Result-cases (parse_csv platform formats now contents)) [
          | inl (r, done) ↦ rw (is_csv, done) (rw done at one)
          | inr (e, failed) ↦ rw (is_csv, failed) others
        ]
      ]

  parse_zip-IsGood : (content : Bytes) → IsGood (parse_zip platform formats now content)
  unfolding parse_zip
  parse_zip-IsGood content = elim (Result-cases (formats.open_zip content)) [
    | inr (bad, failed) ↦ rw (parse_zip, failed) tt
    | inl (files, opened) ↦ rw (parse_zip, opened) (parse_files-IsGood files)
  ]

  parse_as-IsGood :
      (content : Bytes) (format : Result (Error E) Format)
      → IsGood (parse_as platform formats now content format)
  parse_as-IsGood content (err e) = tt
  parse_as-IsGood content (ok csv) = parse_csv-IsGood content
  parse_as-IsGood content (ok zip) = parse_zip-IsGood content

  parse-IsGood : (content : Bytes) → IsGood (parse platform formats now content)
  unfolding parse
  parse-IsGood content = elim (Bool-cases (is_empty content)) [
    | inl empty ↦ rw empty tt
    | inr full ↦ rw full (parse_as-IsGood content (detect_format content))
  ]

  -- Whatever the data and its format, a registry that Parse returns is not empty, counts its
  -- entries, and has no entry but wildcards that gives no rule.
  pub parse-IsParsed :
      (content : Bytes) (r : Registry)
      → parse platform formats now content ≡ ok r
      → IsParsed platform r × (0 < length r.entries)
  parse-IsParsed content r done = let good = parse-IsGood content in rw done at good
