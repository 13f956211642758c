-- ===== src/Base/Texts.antt =====
-- `format!` of a template: the concatenation of its parts.
use Prim.Native.String.{String, ◌++◌ as append}
use mathlib.Core.List.{List, [], ◌∷◌}

unfoldable pub format : List String → String
format [] = String.[]
format (s ∷ parts) = append s (format parts)
