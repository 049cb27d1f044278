-- ===== src/Registry/Parser.antt =====
-- internal/infrastructure/registry/parser.go. The readers of ZIP and CSV, the Windows-1251 decoder
-- and the decimal of a number are parameters. The regular expressions are spelled out: a name is
-- labels between dots, each of 1 to 63 letters, digits and hyphens, with no hyphen at an end.
pub mod Entries
pub mod Stored
pub mod Refused
use rkn_checker.Prelude.{
  ℕ, zero, suc, ◌+◌, Bool, true, false, not, ◌&&◌, ◌||◌, List, [], ◌∷◌, ◌++◌, Option, none, some,
  Result, ok, err, length, drop, take, ◌==◌, ltb, leb, if◌then◌else◌,
}
use rkn_checker.Text.{Bytes, bytes, is_empty, has_prefix, has_suffix, contains, split}
use rkn_checker.Platform.{Platform}
use rkn_checker.Domain.Url.{DomainError}
use rkn_checker.Registry.Errors.{
  Error, outside, sentinel, plain, wraps, empty_data, invalid_format, unsupported_format,
  new_parsing_error, new_parsing_error_with_position,
}
use rkn_checker.Domain.Blocking.{BlockingType, domain, wildcard, ip, url_path}
use rkn_checker.Domain.Registry.{
  RegistryEntry, Registry, new_registry, new_registry_entry, add_entry, registry_size,
}

-- What csv.Reader.Read returns up to io.EOF or an error, for the parser's settings.
pub record CsvRead (E : Type 0) : Type 0 where
  pub records : List (List Bytes)
  pub failed : Option E

pub record Formats (E : Type 0) : Type 0 where
  pub read_csv : Bytes → CsvRead E
  -- the names of the files in an archive, and their contents where they can be read
  pub open_zip : Bytes → Result E (List (Bytes × Option Bytes))
  pub decode_windows1251 : Bytes → Result E Bytes
  -- fmt.Sprintf("%d", n)
  pub decimal : ℕ → Bytes

pub data EntryError : Type 0 where
  invalid_wildcard unrecognized_entry : EntryError
  domain_error : DomainError → EntryError

pub data Format : Type 0 where
  csv zip : Format

-- The first four bytes of a ZIP archive.
pub is_zip : Bytes → Bool
is_zip content =
    has_prefix content (0x50 ∷ 0x4B ∷ 0x03 ∷ 0x04 ∷ [])
    || has_prefix content (0x50 ∷ 0x4B ∷ 0x05 ∷ 0x06 ∷ [])
    || has_prefix content (0x50 ∷ 0x4B ∷ 0x07 ∷ 0x08 ∷ [])

-- detectFormat
unfoldable pub detect_format : {E : Type 0} → Bytes → Result (Error E) Format
unfolding is_zip contains
detect_format content =
    let sample = take 1024 content in
    if ltb (length content) 4
    then err (sentinel invalid_format)
    else if is_zip content
    then ok zip
    else if contains sample (bytes ";") || contains sample (bytes ",")
    then ok csv
    else err (sentinel unsupported_format)

-- [a-zA-Z0-9]
abbrev is_alphanumeric : ℕ → Bool
is_alphanumeric c =
    (leb b'a' c && leb c b'z') || (leb b'A' c && leb c b'Z') || (leb b'0' c && leb c b'9')

-- ([a-zA-Z0-9\-]*[a-zA-Z0-9])?
unfoldable ends_label : Bytes → Bool
ends_label [] = true
ends_label (c ∷ []) = is_alphanumeric c
ends_label (c ∷ d ∷ s) = (is_alphanumeric c || c == b'-') && ends_label (d ∷ s)

-- [a-zA-Z0-9]([a-zA-Z0-9\-]{0,61}[a-zA-Z0-9])?
unfoldable is_label : Bytes → Bool
unfolding ends_label
is_label [] = false
is_label (c ∷ s) = is_alphanumeric c && leb (length s) 62 && ends_label s

unfoldable are_labels : List Bytes → Bool
unfolding is_label
are_labels [] = true
are_labels (part ∷ parts) = is_label part && are_labels parts

-- domainPattern.MatchString
unfoldable pub is_domain_name : Bytes → Bool
unfolding are_labels split
is_domain_name entry = are_labels (split b'.' entry)

-- wildcardPattern.MatchString
unfoldable pub is_wildcard_name : Bytes → Bool
unfolding is_domain_name has_prefix
is_wildcard_name entry = has_prefix entry (bytes "*.") && is_domain_name (drop 2 entry)

-- isIPAddress, with the part before a single colon
abbrev before_colon : Bytes → List Bytes → Bytes
before_colon entry (host ∷ port ∷ []) = host
before_colon entry _ = entry

unfoldable pub is_ip_address : Platform → Bytes → Bool
unfolding contains split
is_ip_address platform entry =
    let host =
      if contains entry (bytes ":") && not (contains entry (bytes "::"))
      then before_colon entry (split b':' entry)
      else entry in
    elim (platform.parse_ip host) [ none ↦ false | some parsed ↦ true ]

module _ (platform : Platform) where
  -- stripProtocol
  unfoldable pub strip_protocol : Bytes → Bytes
  unfolding has_prefix
  strip_protocol entry =
      if has_prefix (platform.to_lower entry) (bytes "https://")
      then drop 8 entry
      else if has_prefix (platform.to_lower entry) (bytes "http://")
      then drop 7 entry
      else if has_prefix (platform.to_lower entry) (bytes "ftp://")
      then drop 6 entry
      else entry

  -- The type that categorizeEntry chooses.
  unfoldable pub entry_type : Bytes → Result EntryError BlockingType
  unfolding has_prefix contains is_wildcard_name is_domain_name is_ip_address
  entry_type entry =
      if has_prefix entry (bytes "*.")
      then (if is_wildcard_name entry then ok wildcard else err invalid_wildcard)
      else if is_ip_address platform entry
      then ok ip
      else if contains entry (bytes "/")
      then ok url_path
      else if is_domain_name entry
      then ok domain
      else err unrecognized_entry

module _ {E : Type 0} (platform : Platform) (formats : Formats E) (now : ℕ) where
  -- rkn_%d, unless the registry is empty
  unfoldable pub with_id : ℕ → RegistryEntry → RegistryEntry
  with_id zero e = e
  with_id (suc n) e = record e { id = bytes "rkn_" ++ formats.decimal (suc n) }

  -- The end of categorizeEntry, at the type and the value that it found.
  unfoldable pub store_entry : BlockingType → Bytes → Registry → Result EntryError Registry
  store_entry t value r = elim (new_registry_entry platform now t value) [
    | err e ↦ err (domain_error e)
    | ok e ↦ elim (add_entry r (some (with_id (length r.entries) e))) [
      | err e' ↦ err (domain_error e')
      | ok r' ↦ ok r'
    ]
  ]

  -- categorizeEntry
  unfoldable pub categorize_entry : Bytes → Registry → Result EntryError Registry
  categorize_entry entry r =
      let value = strip_protocol platform (platform.to_lower entry) in
      elim (entry_type platform value) [ err e ↦ err e | ok t ↦ store_entry t value r ]

  abbrev pub or_keep : Registry → Result EntryError Registry → Registry
  or_keep r (ok r') = r'
  or_keep r (err e) = r

  -- The loop of parseCSVRecord; an entry that fails is left out.
  unfoldable pub parse_parts : List Bytes → Registry → Registry
  parse_parts [] r = r
  parse_parts (part ∷ parts) r =
      let entry = platform.trim_space part in
      parse_parts parts (if is_empty entry then r else or_keep r (categorize_entry entry r))

  -- parseCSVRecord; on its errors the registry stays as it was
  unfoldable pub parse_csv_record : List Bytes → Registry → Registry
  parse_csv_record [] r = r
  parse_csv_record (id ∷ []) r = r
  parse_csv_record (id ∷ url ∷ columns) r =
      if is_empty (platform.trim_space url)
      then r
      else parse_parts (split b'|' (platform.trim_space url)) r

  -- The loop of parseCSVText past the header.
  unfoldable pub parse_records : List (List Bytes) → Registry → Registry
  parse_records [] r = r
  parse_records (fields ∷ records) r = parse_records records (parse_csv_record fields r)

  -- parseCSVText
  unfoldable pub parse_csv_text : Bytes → Result (Error E) Registry
  parse_csv_text text =
      let read = formats.read_csv text in
      let registry =
        parse_records (drop 1 read.records)
          (record (new_registry now) { source = bytes "RKN Registry" }) in
      elim (read.failed) [
        | some e ↦
            err (new_parsing_error_with_position (bytes "csv") (length read.records) 0 (outside e))
        | none ↦
            if registry_size registry == 0
            then err (new_parsing_error (bytes "csv") (plain (bytes "no valid entries found")))
            else ok registry
      ]

  -- parseCSV: the text as it is, then decoded
  unfoldable pub parse_csv : Bytes → Result (Error E) Registry
  parse_csv content = elim (parse_csv_text content) [
    | ok r ↦ ok r
    | err e ↦ elim (formats.decode_windows1251 content) [
      | err e' ↦ err (new_parsing_error (bytes "csv") (outside e'))
      | ok text ↦ elim (parse_csv_text text) [
        | ok r ↦ ok r
        | err e' ↦ err (new_parsing_error (bytes "csv") e')
      ]
    ]
  ]

  -- The loop of parseZIP.
  unfoldable pub parse_files : List (Bytes × Option Bytes) → Result (Error E) Registry
  parse_files [] =
      err (new_parsing_error (bytes "zip") (plain (bytes "no valid CSV found in archive")))
  parse_files ((name, none) ∷ files) = parse_files files
  parse_files ((name, some contents) ∷ files) =
      let others = parse_files files in
      let parsed : Result (Error E) Registry = elim (parse_csv contents) [
        | ok r ↦ ok r
        | err e ↦ others
      ] in
      if has_suffix (platform.to_lower name) (bytes ".csv") then parsed else others

  -- parseZIP
  unfoldable pub parse_zip : Bytes → Result (Error E) Registry
  parse_zip content = elim (formats.open_zip content) [
    | err e ↦ err (new_parsing_error (bytes "zip") (wraps (bytes "opening ZIP") (outside e)))
    | ok files ↦ parse_files files
  ]

  abbrev pub parse_as : Bytes → Result (Error E) Format → Result (Error E) Registry
  parse_as content (err e) = err (wraps (bytes "detecting format") e)
  parse_as content (ok csv) = parse_csv content
  parse_as content (ok zip) = parse_zip content

  -- Parse
  unfoldable pub parse : Bytes → Result (Error E) Registry
  parse content =
      if is_empty content
      then err (sentinel empty_data)
      else parse_as content (detect_format content)
