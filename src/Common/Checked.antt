-- ===== src/Common/Checked.antt =====
-- Results of code that walks raw memory: a value, or an access outside of the buffer, which is
-- undefined behaviour, or a loop that is still running when its fuel is used up.
use mathlib.Core.Option.{Option, none, some}
use mathlib.Core.List.{List}
use Prim.Native.Nat.{ℕ, ◌+◌}
use zaza.Common.Lists.{length, get_elem?}
use zaza.Common.Slices.{slice}
use zaza.Common.Tests.{leb, if◌then◌else◌}

pub data Checked {ℓ} (A : Type ℓ) : Type ℓ where
  ret : A → Checked A
  bad_access : Checked A
  no_fuel : Checked A

infixl 5 ◌>>=◌
abbrev pub ◌>>=◌ {ℓ κ} : {A : Type ℓ} {B : Type κ} → Checked A → (A → Checked B) → Checked B
ret a >>= f = f a
bad_access >>= f = bad_access
no_fuel >>= f = no_fuel

abbrev pub or_bad {ℓ} : {A : Type ℓ} → Option A → Checked A
or_bad none = bad_access
or_bad (some a) = ret a

-- `data[i]`
abbrev pub read {ℓ} : {A : Type ℓ} → List A → ℕ → Checked A
read xs i = or_bad (get_elem? xs i)

-- Copies `[from, from + count)`.
abbrev pub read_range {ℓ} : {A : Type ℓ} → List A → ℕ → ℕ → Checked (List A)
read_range xs from count =
    if leb (from + count) (length xs) then ret (slice xs from count) else bad_access
