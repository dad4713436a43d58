-- ===== src/Base/Maps.antt =====
-- Go maps as association lists: a read of a missing key gives `none`.
use mathlib.Core.Path.{◌≡◌, refl, sym, ap, subst, ◌∙◌}
use mathlib.Core.Logic.{◌⊎◌, inl, inr}
use mathlib.Core.Bool.{Bool, false, ◌||◌}
use sync_bridge.Base.Lists.{All, All-map}
use mathlib.Core.Option.{Option, none, some}
use mathlib.Core.List.{List, [], ◌∷◌}
use native.Mathlib.Omega.{arith}
use sync_bridge.Base.Tests.{Keyed, ◌==◌, if◌then◌else◌, same-cases, same_refl}

module _ {ℓ} {K : Type ℓ} ⦃e : Keyed K⦄ where
  -- Whether a key stands in a list of keys.
  unfoldable pub elem : K → List K → Bool
  elem k [] = false
  elem k (j ∷ js) = (j == k) || elem k js

module _ {ℓ κ} {K : Type ℓ} {V : Type κ} ⦃e : Keyed K⦄ where
  -- `m[key] = value`
  unfoldable pub insert : K → V → List (K × V) → List (K × V)
  insert key value [] = (key, value) ∷ []
  insert key value ((taken, old) ∷ more) =
      let rest = insert key value more in
      if taken == key then (key, value) ∷ more else (taken, old) ∷ rest

  -- `m[key]`
  unfoldable pub lookup : K → List (K × V) → Option V
  lookup key [] = none
  lookup key ((taken, value) ∷ more) =
      let rest = lookup key more in if taken == key then some value else rest

  unfoldable pub delete : K → List (K × V) → List (K × V)
  delete k [] = []
  delete k ((j, w) ∷ m) = let rest = delete k m in if j == k then rest else (j, w) ∷ rest

  -- `for _, k := range ks { delete(m, k) }`
  unfoldable pub delete_all : List K → List (K × V) → List (K × V)
  delete_all [] m = m
  delete_all (k ∷ ks) m = delete_all ks (delete k m)

  pub lookup-insert :
      (key probe : K) (value : V) (m : List (K × V))
      → lookup probe (insert key value m) ≡ (if key == probe then some value else lookup probe m)
  unfolding lookup insert
  lookup-insert key probe value [] = refl
  lookup-insert key probe value ((taken, old) ∷ more) = ground (
    arith,
    lookup-insert key probe value more,
    e.same_iff taken probe,
    e.same_iff taken key,
    e.same_iff key probe,
  )

  pub lookup-delete :
      (k j : K) (m : List (K × V)) → lookup j (delete k m) ≡ (if k == j then none else lookup j m)
  unfolding lookup delete
  lookup-delete k j [] = ground arith
  lookup-delete k j ((i, w) ∷ m) =
      ground (arith, e.same_iff k j, e.same_iff i k, e.same_iff i j, lookup-delete k j m)

  pub lookup-delete_all :
      (ks : List K) (j : K) (m : List (K × V))
      → lookup j (delete_all ks m) ≡ (if elem j ks then none else lookup j m)
  unfolding elem delete_all
  lookup-delete_all [] j m = refl
  lookup-delete_all (k ∷ ks) j m =
      ground (arith, lookup-delete k j m, lookup-delete_all ks j (delete k m))

  -- No key stands twice.
  abbrev pub Unique : List (K × V) → Type κ
  Unique [] = Unit
  Unique ((k, v) ∷ m) = (lookup k m ≡ none) × Unique m

  pub lookup-insert_self : (k : K) (v : V) (m : List (K × V)) → lookup k (insert k v m) ≡ some v
  lookup-insert_self k v m = rw (lookup-insert k k v m) (rw (same_refl k))

  pub lookup-insert_ne :
      (k j : K) (v : V) (m : List (K × V)) → ¬ (k ≡ j) → lookup j (insert k v m) ≡ lookup j m
  lookup-insert_ne k j v m h = elim (same-cases k j) [
    | inl q ↦ absurd (h q.1)
    | inr q ↦ rw (lookup-insert k j v m) (rw q.0)
  ]

  pub lookup-delete_self : (k : K) (m : List (K × V)) → lookup k (delete k m) ≡ none
  lookup-delete_self k m = rw (lookup-delete k k m) (rw (same_refl k))

  pub lookup-delete_ne :
      (k j : K) (m : List (K × V)) → ¬ (k ≡ j) → lookup j (delete k m) ≡ lookup j m
  lookup-delete_ne k j m h = elim (same-cases k j) [
    | inl q ↦ absurd (h q.1)
    | inr q ↦ rw (lookup-delete k j m) (rw q.0)
  ]

  -- What a read finds behind a write or a removal.
  pub lookup-insert-cases :
      (k j : K) (v w : V) (m : List (K × V))
      → lookup j (insert k v m) ≡ some w
      → ((k ≡ j) × (v ≡ w)) ⊎ ((¬ (k ≡ j)) × (lookup j m ≡ some w))
  lookup-insert-cases k j v w m h = elim (same-cases k j) [
    | inl q ↦ inl (q.1, ground (arith, lookup-insert k j v m))
    | inr q ↦ inr (q.1, sym (lookup-insert_ne k j v m q.1) ∙ h)
  ]

  pub lookup-delete-some :
      (k j : K) (w : V) (m : List (K × V))
      → lookup j (delete k m) ≡ some w
      → (¬ (k ≡ j)) × (lookup j m ≡ some w)
  lookup-delete-some k j w m h = elim (same-cases k j) [
    | inl q ↦ absurd (ground (arith, lookup-delete k j m))
    | inr q ↦ (q.1, sym (lookup-delete_ne k j m q.1) ∙ h)
  ]

  pub insert-Unique : (k : K) (v : V) (m : List (K × V)) → Unique m → Unique (insert k v m)
  unfolding lookup insert
  insert-Unique k v [] u = (refl, tt)
  insert-Unique k v ((j, w) ∷ m) u = elim (same-cases j k) [
    | inl q ↦ rw q.0 (rw (← q.1) u.0, u.1)
    | inr q ↦ rw q.0 ((lookup-insert_ne k j v m (λ p. q.1 (sym p)) ∙ u.0), insert-Unique k v m u.1)
  ]

  pub delete-Unique : (k : K) (m : List (K × V)) → Unique m → Unique (delete k m)
  unfolding lookup delete
  delete-Unique k [] u = tt
  delete-Unique k ((j, w) ∷ m) u = elim (same-cases j k) [
    | inl q ↦ rw q.0 (delete-Unique k m u.1)
    | inr q ↦ rw q.0 ((lookup-delete_ne k j m (λ p. q.1 (sym p)) ∙ u.0), delete-Unique k m u.1)
  ]

  pub delete_all-Unique : (ks : List K) (m : List (K × V)) → Unique m → Unique (delete_all ks m)
  unfolding delete_all
  delete_all-Unique [] m u = u
  delete_all-Unique (k ∷ ks) m u = delete_all-Unique ks (delete k m) (delete-Unique k m u)

  -- With unique keys every entry is what a read of its key finds.
  pub Unique-All : (m : List (K × V)) → Unique m → All (λ (x : K × V). lookup x.0 m ≡ some x.1) m
  unfolding lookup
  Unique-All [] u = tt
  Unique-All ((k, v) ∷ m) u = (
    rw (same_refl k),
    All-map
        (λ (x : K × V) h. elim (same-cases k x.0) [
          | inl q ↦ absurd (ground (arith, u.0, ap (λ t. lookup t m) q.1))
          | inr q ↦ rw q.0 h
        ])
        m (Unique-All m u.1),
  )

  pub lookup-All {μ} :
      (P : K × V → Type μ) (m : List (K × V)) (k : K) (v : V)
      → All P m
      → lookup k m ≡ some v
      → P (k, v)
  unfolding lookup
  lookup-All P [] k v a h = absurd (cc h)
  lookup-All P ((j, w) ∷ m) k v a h = elim (same-cases j k) [
    | inl q ↦ subst P (ground (arith, q.0, q.1)) a.0
    | inr q ↦ lookup-All P m k v a.1 (rw q.0 at h)
  ]

  pub insert-All {μ} :
      (P : K × V → Type μ) (k : K) (v : V) (m : List (K × V))
      → P (k, v)
      → All P m
      → All P (insert k v m)
  unfolding insert
  insert-All P k v [] p a = (p, tt)
  insert-All P k v ((j, w) ∷ m) p a = elim (same-cases j k) [
    | inl q ↦ rw q.0 (p, a.1)
    | inr q ↦ rw q.0 (a.0, insert-All P k v m p a.1)
  ]

  pub delete-All {μ} :
      (P : K × V → Type μ) (k : K) (m : List (K × V)) → All P m → All P (delete k m)
  unfolding delete
  delete-All P k [] a = tt
  delete-All P k ((j, w) ∷ m) a = elim (same-cases j k) [
    | inl q ↦ rw q.0 (delete-All P k m a.1)
    | inr q ↦ rw q.0 (a.0, delete-All P k m a.1)
  ]
