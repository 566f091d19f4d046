-- ===== src/Common/Texts.antt =====
-- String literals of the source, as bytes. (They are ASCII.)
use Prim.Native.Char.{code}
use Prim.Native.String.{String}
use mathlib.Core.List.{[], ◌∷◌}
use zaza.Common.Equality.{Bytes}

-- `String` has its own `[]` and `∷`.
abbrev pub bytes : String → Bytes
bytes String.[] = []
bytes (String.◌∷◌ c s) = code c ∷ bytes s
