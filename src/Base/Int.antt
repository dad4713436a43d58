-- ===== src/Base/Int.antt =====
-- Go's `int` where it can be negative. `negsuc n` is -(n + 1).
use Prim.Native.Nat.{ℕ, ◌+◌, ◌-◌, ◌*◌, ◌%◌, ◌^◌}
use mathlib.Core.Path.{◌≡◌}
use mathlib.Core.Logic.{◌↔◌}
use mathlib.Core.Bool.{Bool, true, false}
use native.Mathlib.Omega.{arith}
use sync_bridge.Base.Tests.{Keyed, nat_beq, ltb, if◌then◌else◌}

pub data ℤ : Type 0 where
  pos : ℕ → ℤ
  negsuc : ℕ → ℤ

abbrev pub int_beq : ℤ → ℤ → Bool
int_beq (pos a) (pos b) = nat_beq a b
int_beq (negsuc a) (negsuc b) = nat_beq a b
int_beq _ _ = false

pub int_beq_iff : (a b : ℤ) → (int_beq a b ≡ true) ↔ (a ≡ b)
int_beq_iff (pos a) (pos b) = ground arith
int_beq_iff (negsuc a) (negsuc b) = ground arith
int_beq_iff (pos a) (negsuc b) = ground arith
int_beq_iff (negsuc a) (pos b) = ground arith

instance abbrev pub int_keyed : Keyed ℤ
int_keyed = record { same = int_beq; same_iff = int_beq_iff }

-- a < b
abbrev pub int_ltb : ℤ → ℤ → Bool
int_ltb (pos a) (pos b) = ltb a b
int_ltb (negsuc a) (negsuc b) = ltb b a
int_ltb (negsuc a) (pos b) = true
int_ltb (pos a) (negsuc b) = false

-- a + 1
abbrev pub int_suc : ℤ → ℤ
int_suc (pos a) = pos (a + 1)
int_suc (negsuc Prim.Native.Nat.ℕ.zero) = pos 0
int_suc (negsuc (Prim.Native.Nat.ℕ.suc a)) = negsuc a

pub int_ltb_irrefl : (a : ℤ) → int_ltb a a ≡ false
int_ltb_irrefl (pos a) = ground arith
int_ltb_irrefl (negsuc a) = ground arith

pub int_suc_gt : (a : ℤ) → int_ltb a (int_suc a) ≡ true
int_suc_gt (pos a) = ground arith
int_suc_gt (negsuc Prim.Native.Nat.ℕ.zero) = ground arith
int_suc_gt (negsuc (Prim.Native.Nat.ℕ.suc a)) = ground arith

-- a < b ≤ c gives a < c, where b ≤ c is the failure of c < b.
pub int_ltb_trans : (a b c : ℤ) → int_ltb a b ≡ true → int_ltb c b ≡ false → int_ltb a c ≡ true
int_ltb_trans (pos a) (pos b) (pos c) h g = ground arith
int_ltb_trans (pos a) (pos b) (negsuc c) h g = ground arith
int_ltb_trans (pos a) (negsuc b) c h g = ground arith
int_ltb_trans (negsuc a) (pos b) (pos c) h g = ground arith
int_ltb_trans (negsuc a) (pos b) (negsuc c) h g = ground arith
int_ltb_trans (negsuc a) (negsuc b) (pos c) h g = ground arith
int_ltb_trans (negsuc a) (negsuc b) (negsuc c) h g = ground arith

pub int_ltb_asym : (a b : ℤ) → int_ltb a b ≡ true → int_ltb b a ≡ false
int_ltb_asym (pos a) (pos b) h = ground arith
int_ltb_asym (pos a) (negsuc b) h = ground arith
int_ltb_asym (negsuc a) (pos b) h = ground arith
int_ltb_asym (negsuc a) (negsuc b) h = ground arith

-- b ≤ a gives b < a + 1.
pub int_suc_ge : (a b : ℤ) → int_ltb b a ≡ false → int_ltb a (int_suc b) ≡ true
int_suc_ge (pos a) (pos b) h = ground arith
int_suc_ge (pos a) (negsuc b) h = ground arith
int_suc_ge (negsuc a) (pos b) h = ground arith
int_suc_ge (negsuc a) (negsuc Prim.Native.Nat.ℕ.zero) h = ground arith
int_suc_ge (negsuc a) (negsuc (Prim.Native.Nat.ℕ.suc b)) h = ground arith

-- The int64 with this residue modulo 2 ^ 64.
abbrev pub int64_of : ℕ → ℤ
int64_of v = if ltb v (2 ^ 63) then pos v else negsuc (2 ^ 64 - v - 1)

-- a + 1 as an int64, which wraps.
abbrev pub int64_suc : ℤ → ℤ
int64_suc (pos a) = int64_of ((a + 1) % 2 ^ 64)
int64_suc (negsuc Prim.Native.Nat.ℕ.zero) = pos 0
int64_suc (negsuc (Prim.Native.Nat.ℕ.suc a)) = negsuc a

-- Below the largest int64 nothing wraps.
pub int64_suc-small : (a : ℤ) → int_ltb (pos (2 ^ 62)) a ≡ false → int64_suc a ≡ int_suc a
int64_suc-small (pos a) h = ground arith
int64_suc-small (negsuc Prim.Native.Nat.ℕ.zero) h = ground arith
int64_suc-small (negsuc (Prim.Native.Nat.ℕ.suc a)) h = ground arith

-- An int times a positive number, as an int64 that wraps.
unfoldable pub times64 : ℤ → ℕ → ℤ
times64 (pos a) n = int64_of (a * n % 2 ^ 64)
times64 (negsuc a) n = int64_of ((2 ^ 64 - (a + 1) * n % 2 ^ 64) % 2 ^ 64)

-- time.Second: a duration is a number of nanoseconds.
abbrev pub second : ℕ
second = 1000000000
