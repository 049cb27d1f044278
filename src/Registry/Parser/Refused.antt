-- ===== src/Registry/Parser/Refused.antt =====
-- The sentinel at the root of the error that Parse returns.
use rkn_checker.Prelude.{
  ℕ, ◌≡◌, refl, ◌∙◌, ◌||◌, inl, inr, List, [], ◌∷◌, Option, none, some, Bool-cases, Result-cases,
  arith, Result, ok, err, length, take, ltb, if◌then◌else◌,
}
use rkn_checker.Text.{Bytes, bytes, is_empty, contains}
use rkn_checker.Platform.{Platform}
use rkn_checker.Domain.Registry.{Registry}
use rkn_checker.Registry.Errors.{
  Error, Sentinel, empty_data, invalid_format, unsupported_format, root, new_parsing_error,
  new_parsing_error_with_position,
}
use rkn_checker.Registry.Parser.{
  Formats, parse_csv_text, parse_csv, parse_files, parse_zip, parse, parse_as, detect_format,
  Format, csv, zip, is_zip,
}

-- The sentinel that errors.Is finds in a result.
unfoldable pub root_of : {E : Type 0} → Result (Error E) Registry → Option Sentinel
root_of (ok r) = none
root_of (err e) = root e

-- What a content is refused for before it is read.
unfoldable pub refusal : Bytes → Option Sentinel
unfolding is_empty contains is_zip
refusal content =
    if is_empty content
    then some empty_data
    else if ltb (length content) 4
    then some invalid_format
    else if is_zip content
        || contains (take 1024 content) (bytes ";")
        || contains (take 1024 content) (bytes ",")
    then none
    else some unsupported_format

abbrev format_root : {E : Type 0} → Result (Error E) Format → Option Sentinel
format_root (ok format) = none
format_root (err e) = root e

format_root-detect :
    (E : Type 0) (content : Bytes)
    → format_root (detect_format {E = E} content) ≡ (
        if ltb (length content) 4
        then some invalid_format
        else if is_zip content
            || contains (take 1024 content) (bytes ";")
            || contains (take 1024 content) (bytes ",")
        then none
        else some unsupported_format)
unfolding detect_format root
format_root-detect E content = elim (Bool-cases (ltb (length content) 4)) [
  | inl short ↦ rw (short, detect_format) refl
  | inr long ↦ elim (Bool-cases (is_zip content)) [
    | inl archive ↦ rw (long, archive, detect_format) refl
    | inr other ↦ elim (Bool-cases (contains (take 1024 content) (bytes ";"))) [
      | inl separated ↦ rw (long, other, separated, detect_format) refl
      | inr not_semicolon ↦ elim (Bool-cases (contains (take 1024 content) (bytes ","))) [
        | inl comma ↦ rw (long, other, not_semicolon, comma, detect_format) refl
        | inr no_comma ↦ rw (long, other, not_semicolon, no_comma, detect_format) refl
      ]
    ]
  ]
]

module _ {E : Type 0} (platform : Platform) (formats : Formats E) (now : ℕ) where
  root_of-parse_csv_text :
      (text : Bytes) → root_of (parse_csv_text platform formats now text) ≡ none
  unfolding parse_csv_text root_of root new_parsing_error new_parsing_error_with_position
  root_of-parse_csv_text text = ground arith

  root_of-parse_csv : (content : Bytes) → root_of (parse_csv platform formats now content) ≡ none
  unfolding parse_csv root_of root new_parsing_error
  root_of-parse_csv content = elim (Result-cases (parse_csv_text platform formats now content)) [
    | inl (r, done) ↦ rw (parse_csv, done) refl
    | inr (e, failed) ↦ elim (Result-cases (formats.decode_windows1251 content)) [
      | inr (bad, refused) ↦ rw (parse_csv, failed, refused) refl
      | inl (text, decoded) ↦
          let second = root_of-parse_csv_text text in
          elim (Result-cases (parse_csv_text platform formats now text)) [
            | inl (r, done) ↦ rw (parse_csv, failed, decoded, done) refl
            | inr (e', failed') ↦ rw (parse_csv, failed, decoded, failed') (rw failed' at second)
          ]
    ]
  ]

  root_of-parse_files :
      (files : List (Bytes × Option Bytes))
      → root_of (parse_files platform formats now files) ≡ none
  unfolding parse_files root_of root new_parsing_error
  root_of-parse_files [] = refl
  root_of-parse_files ((name, none) ∷ files) = root_of-parse_files files
  root_of-parse_files ((name, some contents) ∷ files) =
      ground (arith, root_of-parse_files files, root_of-parse_csv contents)

  root_of-parse_zip : (content : Bytes) → root_of (parse_zip platform formats now content) ≡ none
  unfolding parse_zip root_of root new_parsing_error
  root_of-parse_zip content = elim (Result-cases (formats.open_zip content)) [
    | inr (bad, failed) ↦ rw (parse_zip, failed) refl
    | inl (files, opened) ↦ rw (parse_zip, opened) (root_of-parse_files files)
  ]

  root_of-parse_as :
      (content : Bytes) (format : Result (Error E) Format)
      → root_of (parse_as platform formats now content format) ≡ format_root format
  unfolding root_of root
  root_of-parse_as content (ok csv) = root_of-parse_csv content
  root_of-parse_as content (ok zip) = root_of-parse_zip content
  root_of-parse_as content (err e) = refl

  -- For every content, errors.Is finds a sentinel of the package in the error of Parse exactly where
  -- the content is refused before it is read: ErrEmptyData where it is empty, ErrInvalidFormat where
  -- it has less than four bytes, ErrUnsupportedFormat where it neither starts as a ZIP archive nor
  -- has a separator among its first 1024 bytes. Everywhere else there is no error, or one of reading.
  pub root_of-parse :
      (content : Bytes) → root_of (parse platform formats now content) ≡ refusal content
  unfolding parse refusal root_of root
  root_of-parse content = elim (Bool-cases (is_empty content)) [
    | inl empty ↦ rw empty refl
    | inr full ↦
        rw full (root_of-parse_as content (detect_format content) ∙ format_root-detect E content)
  ]
