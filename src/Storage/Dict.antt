-- ===== src/Storage/Dict.antt =====
-- Go's map from strings. The program never ranges over one, so an order of the keys is not
-- modelled; `len` counts the keys.
use rkn_checker.Prelude.{◌≡◌, refl, List, [], ◌∷◌, Option, none, some, if◌then◌else◌, arith}
use rkn_checker.Text.{Bytes, bytes_eq}
use rkn_checker.Text.Laws.{bytes_eq_iff}

abbrev pub Dict : Type 0 → Type 0
Dict V = List (Bytes × V)

module _ {V : Type 0} where
  -- v, ok := m[key]
  unfoldable pub get : Dict V → Bytes → Option V
  get [] key = none
  get ((k, v) ∷ m) key = if bytes_eq key k then some v else get m key

  -- m[key] = v
  unfoldable pub put : Dict V → Bytes → V → Dict V
  put [] key v = (key, v) ∷ []
  put ((k, w) ∷ m) key v = if bytes_eq key k then (k, v) ∷ m else (k, w) ∷ put m key v

  pub get-put :
      (m : Dict V) (key : Bytes) (v : V) (j : Bytes)
      → get (put m key v) j ≡ (if bytes_eq j key then some v else get m j)
  unfolding get put
  get-put [] key v j = refl
  get-put ((k, w) ∷ m) key v j =
      ground (arith, get-put m key v j, bytes_eq_iff key k, bytes_eq_iff j k, bytes_eq_iff j key)
