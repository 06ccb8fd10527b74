-- ===== src/Prelude/Plain.antt =====
-- A concrete `Unicode` in which no character beyond ASCII has another case.
use mathlib.Core.List.{[], ◌∷◌}
use einvoice.Prelude.Strings.{Unicode}

instance abbrev pub plain : Unicode
plain = record { upper_beyond = λ c. c ∷ []; lower_beyond = λ c. c ∷ [] }
