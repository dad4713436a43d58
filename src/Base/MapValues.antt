-- ===== src/Base/MapValues.antt =====
-- Maps: a function on every value, and the keys of the values that pass a test.
use mathlib.Core.Path.{◌≡◌, refl, ap, ◌∙◌}
use mathlib.Core.Logic.{inl, inr}
use mathlib.Core.Bool.{Bool, true}
use mathlib.Core.Option
use mathlib.Core.Option.{Option, none, some}
use mathlib.Core.List.{List, [], ◌∷◌}
use native.Mathlib.Omega.{arith}
use sync_bridge.Base.Tests.{Keyed, if◌then◌else◌, same-cases, Bool-cases}
use sync_bridge.Base.Maps.{lookup, elem, Unique}

module _ {ℓ κ μ} {K : Type ℓ} {V : Type κ} {W : Type μ} where
  unfoldable pub map_values : (V → W) → List (K × V) → List (K × W)
  map_values f [] = []
  map_values f ((k, v) ∷ m) = (k, f v) ∷ map_values f m

module _ {ℓ κ μ} {K : Type ℓ} {V : Type κ} {W : Type μ} ⦃e : Keyed K⦄ where
  pub lookup-map_values :
      (f : V → W) (k : K) (m : List (K × V)) → lookup k (map_values f m) ≡ Option.map f (lookup k m)
  unfolding lookup map_values
  lookup-map_values f k [] = refl
  lookup-map_values f k ((j, v) ∷ m) = elim (same-cases j k) [
    | inl q ↦ rw q.0 refl
    | inr q ↦ rw q.0 (lookup-map_values f k m)
  ]

  pub map_values-Unique : (f : V → W) (m : List (K × V)) → Unique m → Unique (map_values f m)
  unfolding map_values
  map_values-Unique f [] u = tt
  map_values-Unique f ((k, v) ∷ m) u =
      (lookup-map_values f k m ∙ ap (Option.map f) u.0, map_values-Unique f m u.1)

module _ {ℓ κ} {K : Type ℓ} {V : Type κ} where
  -- The keys of the entries that pass a test.
  unfoldable pub keys_where : (V → Bool) → List (K × V) → List K
  keys_where p [] = []
  keys_where p ((k, v) ∷ m) = let rest = keys_where p m in if p v then k ∷ rest else rest

module _ {ℓ κ} {K : Type ℓ} {V : Type κ} ⦃e : Keyed K⦄ where
  -- A key among those of the entries that pass a test reads such an entry.
  pub elem-keys_where :
      (p : V → Bool) (k : K) (m : List (K × V))
      → Unique m
      → elem k (keys_where p m) ≡ true
      → (v : V) × (lookup k m ≡ some v) × (p v ≡ true)
  unfolding lookup keys_where elem
  elem-keys_where p k [] u h = absurd (cc h)
  elem-keys_where p k ((j, v) ∷ m) u h = elim (same-cases j k) [
    | inl q ↦ elim (Bool-cases (p v)) [
      | inl t ↦ (v, rw q.0 refl, t)
      | inr t ↦ absurd (
          let (w, found, r) = elem-keys_where p k m u.1 (rw t at h) in
          ground (arith, u.0, ap (λ i. lookup i m) q.1))
    ]
    | inr q ↦ rw q.0 (elem-keys_where p k m u.1 (ground arith))
  ]
