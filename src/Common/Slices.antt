-- ===== src/Common/Slices.antt =====
-- Reads at an offset into a buffer, and what they give behind a known prefix.
use Prim.Native.Nat.{ℕ, zero, suc, ◌+◌, ◌<◌}
use mathlib.Core.Path.{◌≡◌, refl}
use mathlib.Core.List.{List, [], ◌∷◌, ◌++◌}
use mathlib.Core.Option.{some}
use native.Mathlib.Omega.{arith}
use zaza.Common.Lists.{length, get_elem?, take, drop, take-append, drop-append}

module _ {ℓ} {A : Type ℓ} where
  -- The range `[from, from + count)`.
  abbrev pub slice : List A → ℕ → ℕ → List A
  slice xs from count = take count (drop from xs)

  pub get_elem?-append :
      (xs ys : List A) (i : ℕ) → get_elem? (xs ++ ys) (length xs + i) ≡ get_elem? ys i
  get_elem?-append [] ys i = let e : 0 + i ≡ i = omega arith in rw e
  get_elem?-append (x ∷ xs) ys i =
      let e : suc (length xs) + i ≡ suc (length xs + i) = omega arith in
      rw e (get_elem?-append xs ys i)

  pub slice-append : (xs ys zs : List A) → slice (xs ++ (ys ++ zs)) (length xs) (length ys) ≡ ys
  slice-append xs ys zs = rw (drop-append xs (ys ++ zs)) (take-append ys zs)

  pub get_elem?-some : (xs : List A) (i : ℕ) → i < length xs → (a : A) × (get_elem? xs i ≡ some a)
  get_elem?-some [] i h = absurd (omega arith)
  get_elem?-some (x ∷ xs) zero h = (x, refl)
  get_elem?-some (x ∷ xs) (suc i) h = get_elem?-some xs i (omega arith)
