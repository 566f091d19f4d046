-- ===== src/Common/Search.antt =====
-- The searches of `std::string` that the program makes.
use mathlib.Core.Bool.{Bool, true, false, ◌&&◌}
use mathlib.Core.Option.{Option, none, some}
use mathlib.Core.List.{[], ◌∷◌}
use Prim.Native.Nat.{ℕ}
use zaza.Common.Tests.{◌==◌, if◌then◌else◌}
use zaza.Common.Equality.{Bytes}

-- `text.rfind(prefix, 0) == 0`
unfoldable pub starts_with : Bytes → Bytes → Bool
starts_with text [] = true
starts_with [] (c ∷ prefix) = false
starts_with (d ∷ text) (c ∷ prefix) = d == c && starts_with text prefix

-- The text from `text.find(part)` on, or `none` for `npos`.
unfoldable pub find_part : Bytes → Bytes → Option Bytes
unfolding starts_with
find_part [] part = if starts_with [] part then some [] else none
find_part (c ∷ text) part =
    let later = find_part text part in
    if starts_with (c ∷ text) part then some (c ∷ text) else later

abbrev pub has_part : Bytes → Bytes → Bool
has_part text part = elim (find_part text part) [ none ↦ false | some rest ↦ true ]

-- `text.substr(0, text.find(c))`, the whole text where there is no such byte.
unfoldable pub up_to : ℕ → Bytes → Bytes
up_to c [] = []
up_to c (d ∷ text) = let front = up_to c text in if d == c then [] else d ∷ front
