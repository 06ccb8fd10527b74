-- ===== src/Totals/Maps.antt =====
-- A JavaScript `Map` from texts to texts, in insertion order, as calculate-totals.ts uses it.
use einvoice.Prelude.{
  ◌≡◌, refl, Bool, true, false, Option, none, some, List, [], ◌∷◌, Text, text_eq, text_eq_iff,
  arith, if◌then◌else◌,
}

unfoldable pub map_get : List (Text × Text) → Text → Option Text
map_get [] k = none
map_get ((j, v) ∷ m) k = if text_eq j k then some v else map_get m k

unfoldable pub map_set : List (Text × Text) → Text → Text → List (Text × Text)
map_set [] k v = (k, v) ∷ []
map_set ((j, w) ∷ m) k v = if text_eq j k then (j, v) ∷ m else (j, w) ∷ map_set m k v

abbrev is_some : Option Text → Bool
is_some none = false
is_some (some v) = true

unfoldable pub map_has : List (Text × Text) → Text → Bool
unfolding map_get
map_has m k = is_some (map_get m k)

pub map_get-map_set :
    (m : List (Text × Text)) (k j v : Text)
    → map_get (map_set m k v) j ≡ (if text_eq k j then some v else map_get m j)
unfolding map_get map_set
map_get-map_set [] k j v = refl
map_get-map_set ((i, w) ∷ m) k j v =
    ground (arith, text_eq_iff k j, text_eq_iff i k, text_eq_iff i j, map_get-map_set m k j v)
