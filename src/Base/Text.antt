-- ===== src/Base/Text.antt =====
-- The texts of f-strings.
use Prim.Native.String.{String, ◌++◌}
use mathlib.Core.List.{List, [], ◌∷◌}

-- The parts of an f-string, one after another.
abbrev pub concat : List String → String
concat [] = ""
concat (s ∷ []) = s
concat (s ∷ t ∷ parts) = s ++ concat (t ∷ parts)
