-- ===== src/Registry/Errors/Causes.antt =====
-- The texts of errors, and of the errors that they wrap.
use mathlib.Core.List.{append_assoc}
use rkn_checker.Prelude.{◌≡◌, refl, sym, ap, ◌∙◌, List, [], ◌∷◌, ◌++◌, some, some_inj}
use rkn_checker.Text.{Bytes, bytes}
use rkn_checker.Registry.Errors.{
  Error, wraps, followed_by, nil, or_nil, source_error, parsing_error, Printer, unwrap, error_text,
  sentinel_text, concat, source_text, time_text, parsing_text,
}

-- A text stands within another.
abbrev pub Within : Bytes → Bytes → Type 0
Within inner outer = (before : Bytes) × (after : Bytes) × (outer ≡ before ++ (inner ++ after))

Within-concat :
    (before : List Bytes) (inner : Bytes) (after : List Bytes)
    → Within inner (concat (before ++ (inner ∷ after)))
unfolding concat
Within-concat [] inner after = ([], concat after, refl)
Within-concat (piece ∷ before) inner after =
    let (b, a, e) = Within-concat before inner after in
    (piece ++ b, a, ap (λ s. piece ++ s) e ∙ sym (append_assoc piece b (inner ++ a)))

or_nil-some : {E : Type 0} (e cause : Error E) → or_nil e ≡ some cause → cause ≡ e
or_nil-some nil cause h = cc
or_nil-some _ cause h = sym (some_inj h)

module _ {E : Type 0} (printer : Printer E) where
  -- The text of an error has in it the text of the error that it unwraps to.
  pub error_text-unwrap :
      (e cause : Error E)
      → unwrap e ≡ some cause
      → Within (error_text printer cause) (error_text printer e)
  unfolding error_text unwrap
  error_text-unwrap (wraps text inner) cause h =
      rw (or_nil-some inner cause h)
        (Within-concat (text ∷ bytes ": " ∷ []) (error_text printer inner) [])
  error_text-unwrap (followed_by s last) cause h =
      rw (sym (some_inj h))
        (Within-concat [] (sentinel_text s) (bytes ": last error: " ∷ error_text printer last ∷ []))
  error_text-unwrap (source_error source operation inner timestamp) cause h =
      rw (or_nil-some inner cause h) (
        Within-concat (source_text printer source operation) (error_text printer inner)
          (time_text printer timestamp))
  error_text-unwrap (parsing_error format line column inner) cause h =
      rw (or_nil-some inner cause h)
        (Within-concat (parsing_text printer format line column) (error_text printer inner) [])
  error_text-unwrap _ cause h = cc
