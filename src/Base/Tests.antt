-- ===== src/Base/Tests.antt =====
-- Boolean tests, the conditional, equality as an interface, and case splits that keep the equation.
use Prim.Native.Nat.{ℕ, compare, Ordering, ◌<◌, ◌≤◌}
use Prim.Native.String.{String}
use text.Mathlib.Text.{◌==◌ as str_eq}
use text.Mathlib.TextEquality.{eq_iff}
use mathlib.Core.Path.{◌≡◌, refl}
use mathlib.Core.Logic.{◌↔◌, ◌⊎◌, inl, inr}
use mathlib.Core.Bool.{Bool, true, false}
use mathlib.Core.Option.{Option, none, some}
use native.Mathlib.Omega.{arith}

abbrev pub ltb : ℕ → ℕ → Bool
ltb a b = elim (compare a b) [ Ordering.lt ↦ true | _ ↦ false ]

abbrev pub leb : ℕ → ℕ → Bool
leb a b = elim (compare a b) [ Ordering.gt ↦ false | _ ↦ true ]

abbrev pub nat_beq : ℕ → ℕ → Bool
nat_beq a b = elim (compare a b) [ Ordering.eq ↦ true | _ ↦ false ]

infix 1 if◌then◌else◌
abbrev pub if◌then◌else◌ {ℓ} : {A : Type ℓ} → Bool → A → A → A
if true then x else y = x
if false then x else y = y

pub nat_beq_iff : (a b : ℕ) → (nat_beq a b ≡ true) ↔ (a ≡ b)
nat_beq_iff a b = ground arith

pub ltb→lt : (a b : ℕ) → ltb a b ≡ true → a < b
ltb→lt a b h = ground arith

pub ltb→ge : (a b : ℕ) → ltb a b ≡ false → b ≤ a
ltb→ge a b h = ground arith

pub Bool-cases : (b : Bool) → (b ≡ true) ⊎ (b ≡ false)
Bool-cases true = inl refl
Bool-cases false = inr refl

pub Option-cases {ℓ} : {A : Type ℓ} (o : Option A) → (o ≡ none) ⊎ ((a : A) × (o ≡ some a))
Option-cases none = inl refl
Option-cases (some a) = inr (a, refl)

-- What the keys of a map need: a test that holds exactly of equal keys.
pub record Keyed {ℓ} (K : Type ℓ) : Type ℓ where
  pub same : K → K → Bool
  pub same_iff : (key other : K) → (same key other ≡ true) ↔ (key ≡ other)

instance abbrev pub string_keyed : Keyed String
string_keyed = record { same = str_eq; same_iff = eq_iff }

instance abbrev pub nat_keyed : Keyed ℕ
nat_keyed = record { same = nat_beq; same_iff = nat_beq_iff }

module _ {ℓ} {K : Type ℓ} ⦃keyed : Keyed K⦄ where
  infix 50 ◌==◌
  abbrev pub ◌==◌ : K → K → Bool
  key == other = keyed.same key other

  pub same_refl : (key : K) → (key == key) ≡ true
  same_refl key = (keyed.same_iff key key).1 refl

  -- The two outcomes of a test of equality, with what each means.
  pub same-cases :
      (key other : K)
      → (((key == other) ≡ true) × (key ≡ other)) ⊎ (((key == other) ≡ false) × ¬ (key ≡ other))
  same-cases key other = elim (Bool-cases (key == other)) [
    | inl h ↦ inl (h, (keyed.same_iff key other).0 h)
    | inr h ↦ inr (h, λ p. ground (arith, (keyed.same_iff key other).1 p))
  ]
