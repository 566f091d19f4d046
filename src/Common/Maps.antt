-- ===== src/Common/Maps.antt =====
-- `std::unordered_map` as an association list. The order of the list stands for the iteration
-- order, which the C++ library leaves open.
use mathlib.Core.Path.{◌≡◌, refl, sym, subst}
use mathlib.Core.Bool.{true, false}
use mathlib.Core.Option.{Option, none, some}
use mathlib.Core.List.{List, [], ◌∷◌}
use native.Mathlib.Omega.{arith}
use mathlib.Core.Logic.{inl, inr}
use zaza.Common.Lists.{All}
use zaza.Common.Tests.{Bool-cases, if◌then◌else◌}
use zaza.Common.Equality.{Eq, same}

abbrev pub Map {ℓ κ} : Type ℓ → Type κ → Type (ℓ ⊔ κ)
Map K V = List (K × V)

module _ {ℓ κ} {K : Type ℓ} {V : Type κ} ⦃e : Eq K⦄ where
  -- `find`
  abbrev pub lookup : K → Map K V → Option V
  lookup k [] = none
  lookup k ((j, v) ∷ m) = if same j k then some v else lookup k m

  -- `m[k] = v`
  abbrev pub insert : K → V → Map K V → Map K V
  insert k v [] = (k, v) ∷ []
  insert k v ((j, w) ∷ m) = if same j k then (j, v) ∷ m else (j, w) ∷ insert k v m

  -- `erase(k)`
  abbrev pub erase : K → Map K V → Map K V
  erase k [] = []
  erase k ((j, w) ∷ m) = if same j k then erase k m else (j, w) ∷ erase k m

  pub lookup-insert :
      (k j : K) (v : V) (m : Map K V)
      → lookup j (insert k v m) ≡ (if same k j then some v else lookup j m)
  lookup-insert k j v [] = refl
  lookup-insert k j v ((i, w) ∷ m) =
      ground (arith, e.beq_iff k j, e.beq_iff i k, e.beq_iff i j, lookup-insert k j v m)

  pub lookup-erase :
      (k j : K) (m : Map K V) → lookup j (erase k m) ≡ (if same k j then none else lookup j m)
  lookup-erase k j [] = ground arith
  lookup-erase k j ((i, w) ∷ m) =
      ground (arith, e.beq_iff k j, e.beq_iff i k, e.beq_iff i j, lookup-erase k j m)

  pub lookup-insert-same :
      (k j : K) (v : V) (m : Map K V) → same k j ≡ true → lookup j (insert k v m) ≡ some v
  lookup-insert-same k j v m h = rw (lookup-insert k j v m, h)

  pub lookup-insert_diff :
      (k j : K) (v : V) (m : Map K V) → same k j ≡ false → lookup j (insert k v m) ≡ lookup j m
  lookup-insert_diff k j v m h = rw (lookup-insert k j v m, h)

  pub lookup-insert_self : (k : K) (v : V) (m : Map K V) → lookup k (insert k v m) ≡ some v
  lookup-insert_self k v m = lookup-insert-same k k v m ((e.beq_iff k k).1 refl)

  pub lookup-erase-same : (k j : K) (m : Map K V) → same k j ≡ true → lookup j (erase k m) ≡ none
  lookup-erase-same k j m h = rw (lookup-erase k j m, h)

  pub lookup-erase_diff :
      (k j : K) (m : Map K V) → same k j ≡ false → lookup j (erase k m) ≡ lookup j m
  lookup-erase_diff k j m h = rw (lookup-erase k j m, h)

  -- A new entry takes the place of the old one, or stands at the end.
  pub All-insert {μ} :
      (P : K × V → Type μ) (k : K) (v : V) (m : Map K V) → P (k, v) → All P m → All P (insert k v m)
  All-insert P k v [] p h = (p, tt)
  All-insert P k v ((j, w) ∷ m) p h = elim (Bool-cases (same j k)) [
    | inl hit ↦ rw hit (subst (λ i. P (i, v)) (sym ((e.beq_iff j k).0 hit)) p, h.1)
    | inr miss ↦ rw miss (h.0, All-insert P k v m p h.1)
  ]

  pub All-erase {μ} : (P : K × V → Type μ) (k : K) (m : Map K V) → All P m → All P (erase k m)
  All-erase P k [] h = h
  All-erase P k ((j, w) ∷ m) h = elim (Bool-cases (same j k)) [
    | inl hit ↦ rw hit (All-erase P k m h.1)
    | inr miss ↦ rw miss (h.0, All-erase P k m h.1)
  ]

  -- An entry that is found is one of the map.
  pub All-lookup {μ} :
      (P : V → Type μ) (k : K) (m : Map K V) {v : V}
      → All (λ (x : K × V). P x.1) m
      → lookup k m ≡ some v
      → P v
  All-lookup P k [] h q = absurd (cc)
  All-lookup P k ((j, w) ∷ m) {v = v} h q = elim (Bool-cases (same j k)) [
    | inl hit ↦ let found : some w ≡ some v = rw hit at q in subst P (cc) h.0
    | inr miss ↦ All-lookup P k m h.1 (rw miss at q)
  ]
