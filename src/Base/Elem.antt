-- ===== src/Base/Elem.antt =====
-- Keys that stand in a list of keys.
use mathlib.Core.Path.{◌≡◌, refl}
use mathlib.Core.Bool.{Bool, true, false, ◌||◌}
use mathlib.Core.List.{List, [], ◌∷◌, ◌++◌}
use sync_bridge.Base.Tests.{Keyed, ◌==◌, if◌then◌else◌, same_refl}
use sync_bridge.Base.Maps.{elem}

pub or-left : (a b : Bool) → a ≡ true → (a || b) ≡ true
or-left true b h = refl
or-left false b h = cc

pub or-right : (a b : Bool) → b ≡ true → (a || b) ≡ true
or-right true b h = refl
or-right false b h = h

module _ {ℓ} {K : Type ℓ} ⦃e : Keyed K⦄ where
  pub elem-head : (k : K) (xs : List K) → elem k (k ∷ xs) ≡ true
  unfolding elem
  elem-head k xs = or-left (k == k) (elem k xs) (same_refl k)

  pub elem-tail : (k x : K) (xs : List K) → elem k xs ≡ true → elem k (x ∷ xs) ≡ true
  unfolding elem
  elem-tail k x xs h = or-right (x == k) (elem k xs) h

  pub elem-tail_of_ne :
      (k x : K) (xs : List K) → (x == k) ≡ false → elem k (x ∷ xs) ≡ true → elem k xs ≡ true
  unfolding elem
  elem-tail_of_ne k x xs q h = cc (q, h)

  -- The same first key, and a tail with the key if the other tail has it.
  pub elem-cons_mono :
      (k x : K) (xs ys : List K)
      → (elem k xs ≡ true → elem k ys ≡ true)
      → elem k (x ∷ xs) ≡ true
      → elem k (x ∷ ys) ≡ true
  unfolding elem
  elem-cons_mono k x xs ys f h = step (x == k) h
    where
      step : (b : Bool) → (b || elem k xs) ≡ true → (b || elem k ys) ≡ true
      step true h = refl
      step false h = f h

  pub elem-if :
      (k : K) (b : Bool) (xs ys : List K)
      → elem k xs ≡ true
      → elem k ys ≡ true
      → elem k (if b then xs else ys) ≡ true
  elem-if k true xs ys h h' = h
  elem-if k false xs ys h h' = h'

  pub elem-append_left : (k : K) (xs ys : List K) → elem k xs ≡ true → elem k (xs ++ ys) ≡ true
  unfolding elem
  elem-append_left k [] ys h = cc
  elem-append_left k (x ∷ xs) ys h = elem-cons_mono k x xs (xs ++ ys) (elem-append_left k xs ys) h

  pub elem-append_right : (k : K) (xs ys : List K) → elem k ys ≡ true → elem k (xs ++ ys) ≡ true
  unfolding elem
  elem-append_right k [] ys h = h
  elem-append_right k (x ∷ xs) ys h = elem-tail k x (xs ++ ys) (elem-append_right k xs ys h)

  pub elem-nil : (k : K) → (elem k [] ≡ true) → ⊥
  unfolding elem
  elem-nil k h = cc h
