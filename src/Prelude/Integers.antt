-- ===== src/Prelude/Integers.antt =====
-- The integers over the native numbers: `negsuc n` is `-(n + 1)`.
use Prim.Native.Nat.{ℕ, zero, suc, ◌+◌, ◌-◌}
use mathlib.Core.Bool.{Bool, true, false}
use mathlib.Core.Path.{◌≡◌, refl}
use native.Mathlib.Omega.{arith}
use athena_order_priority.Prelude.Tests.{leb, if◌then◌else◌}

pub data ℤ : Type 0 where
  pos : ℕ → ℤ
  negsuc : ℕ → ℤ

-- `a - b` of natural numbers.
infixl 60 ◌⊖◌
abbrev pub ◌⊖◌ : ℕ → ℕ → ℤ
a ⊖ b = if leb b a then pos (a - b) else negsuc (b - a - 1)

infixl 60 ◌+ℤ◌
unfoldable pub ◌+ℤ◌ : ℤ → ℤ → ℤ
pos a +ℤ pos b = pos (a + b)
pos a +ℤ negsuc b = a ⊖ suc b
negsuc a +ℤ pos b = b ⊖ suc a
negsuc a +ℤ negsuc b = negsuc (suc (a + b))

unfoldable pub neg : ℤ → ℤ
neg (pos zero) = pos zero
neg (pos (suc n)) = negsuc n
neg (negsuc n) = pos (suc n)

infixl 60 ◌-ℤ◌
unfoldable pub ◌-ℤ◌ : ℤ → ℤ → ℤ
unfolding ◌+ℤ◌ neg
a -ℤ b = a +ℤ neg b

-- `abs`
abbrev pub abs : ℤ → ℤ
abs (pos n) = pos n
abs (negsuc n) = pos (suc n)

-- `a + (b - a) ≡ b`
pub add_sub : (a b : ℤ) → a +ℤ (b -ℤ a) ≡ b
unfolding ◌+ℤ◌ ◌-ℤ◌ neg
add_sub (pos zero) (pos b) = ground arith
add_sub (pos (suc a)) (pos b) = ground arith
add_sub (pos zero) (negsuc b) = ground arith
add_sub (pos (suc a)) (negsuc b) = ground arith
add_sub (negsuc a) (pos b) = ground arith
add_sub (negsuc a) (negsuc b) = ground arith

pub zero_add : (a : ℤ) → pos 0 +ℤ a ≡ a
unfolding ◌+ℤ◌
zero_add (pos a) = ground arith
zero_add (negsuc a) = ground arith

pub add_zero : (a : ℤ) → a +ℤ pos 0 ≡ a
unfolding ◌+ℤ◌
add_zero (pos a) = ground arith
add_zero (negsuc a) = ground arith

pub add_assoc : (a b c : ℤ) → a +ℤ b +ℤ c ≡ a +ℤ (b +ℤ c)
unfolding ◌+ℤ◌
add_assoc (pos a) (pos b) (pos c) = ground arith
add_assoc (pos a) (pos b) (negsuc c) = ground arith
add_assoc (pos a) (negsuc b) (pos c) = ground arith
add_assoc (pos a) (negsuc b) (negsuc c) = ground arith
add_assoc (negsuc a) (pos b) (pos c) = ground arith
add_assoc (negsuc a) (pos b) (negsuc c) = ground arith
add_assoc (negsuc a) (negsuc b) (pos c) = ground arith
add_assoc (negsuc a) (negsuc b) (negsuc c) = ground arith

-- `a <= b`
abbrev pub leq : ℤ → ℤ → Bool
leq (pos a) (pos b) = leb a b
leq (pos a) (negsuc b) = false
leq (negsuc a) (pos b) = true
leq (negsuc a) (negsuc b) = leb b a

-- `min(a, b)` and `max(a, b)`
abbrev pub min_int : ℤ → ℤ → ℤ
min_int a b = if leq a b then a else b

abbrev pub max_int : ℤ → ℤ → ℤ
max_int a b = if leq b a then a else b

pub leq_total : (a b : ℤ) → leq a b ≡ false → leq b a ≡ true
leq_total (pos a) (pos b) h = ground (arith, h)
leq_total (pos a) (negsuc b) h = refl
leq_total (negsuc a) (pos b) h = absurd (ground (arith, h))
leq_total (negsuc a) (negsuc b) h = ground (arith, h)

pub leq_trans : (a b c : ℤ) → leq a b ≡ true → leq b c ≡ true → leq a c ≡ true
leq_trans (pos a) (pos b) (pos c) h g = ground (arith, h, g)
leq_trans (pos a) (pos b) (negsuc c) h g = absurd (ground (arith, g))
leq_trans (pos a) (negsuc b) c h g = absurd (ground (arith, h))
leq_trans (negsuc a) (pos b) (pos c) h g = refl
leq_trans (negsuc a) (pos b) (negsuc c) h g = absurd (ground (arith, g))
leq_trans (negsuc a) (negsuc b) (pos c) h g = refl
leq_trans (negsuc a) (negsuc b) (negsuc c) h g = ground (arith, h, g)
