-- ===== src/Prelude/Lists.antt =====
-- Lists measured by native numbers, and predicates on all members by recursion.
use Prim.Native.Nat.{ℕ, zero, suc, ◌+◌, ◌≤◌}
use mathlib.Core.Path.{◌≡◌, refl, ap, ◌∙◌}
use mathlib.Core.Logic.{◌⊎◌, inl, inr}
use mathlib.Core.Bool.{Bool, true, false, ◌||◌}
use mathlib.Core.List.{List, [], ◌∷◌, ◌++◌, map}
use native.Mathlib.Omega.{arith}
use athena_order_priority.Prelude.Tests.{if◌then◌else◌, leb, Bool-cases}

-- Every member satisfies `P`.
abbrev pub All {ℓ κ} : {A : Type ℓ} → (A → Type κ) → List A → Type κ
All P [] = Unit
All P (x ∷ xs) = P x × All P xs

pub All-append {ℓ κ} :
    {A : Type ℓ} (P : A → Type κ) (xs ys : List A) → All P xs → All P ys → All P (xs ++ ys)
All-append P [] ys hx hy = hy
All-append P (x ∷ xs) ys hx hy = (hx.0, All-append P xs ys hx.1 hy)

pub All-weaken {ℓ κ μ} :
    {A : Type ℓ} (P : A → Type κ) (Q : A → Type μ) (xs : List A)
    → ((x : A) → P x → Q x)
    → All P xs
    → All Q xs
All-weaken P Q [] f h = tt
All-weaken P Q (x ∷ xs) f h = (f x h.0, All-weaken P Q xs f h.1)

-- `any(p(x) for x in xs)`
unfoldable pub any {ℓ} : {A : Type ℓ} → (A → Bool) → List A → Bool
any p [] = false
any p (x ∷ xs) = p x || any p xs

-- `[x for x in xs if p(x)]`
unfoldable pub filter {ℓ} : {A : Type ℓ} → (A → Bool) → List A → List A
filter p [] = []
filter p (x ∷ xs) = let rest = filter p xs in if p x then x ∷ rest else rest

module _ {ℓ} {A : Type ℓ} where
  abbrev pub length : List A → ℕ
  length [] = 0
  length (x ∷ xs) = suc (length xs)

  abbrev pub is_nil : List A → Bool
  is_nil [] = true
  is_nil (x ∷ xs) = false

  pub length-append : (xs ys : List A) → length (xs ++ ys) ≡ length xs + length ys
  length-append [] ys = omega arith
  length-append (x ∷ xs) ys = omega (arith, length-append xs ys)

module _ {ℓ} {A : Type ℓ} (p : A → Bool) where
  pub any-append : (xs ys : List A) → any p (xs ++ ys) ≡ (any p xs || any p ys)
  unfolding any
  any-append [] ys = refl
  any-append (x ∷ xs) ys = ground (arith, any-append xs ys)

  pub filter-All : (xs : List A) → All (λ x. p x ≡ true) (filter p xs)
  unfolding filter
  filter-All [] = tt
  filter-All (x ∷ xs) = ground (arith, filter-All xs)

-- `bisect.bisect_right(xs, x)` on an ascending list: how many leading elements are at most `x`.
unfoldable pub bisect_right : List ℕ → ℕ → ℕ
bisect_right [] x = 0
bisect_right (y ∷ ys) x = let more = bisect_right ys x in if leb y x then suc more else 0

-- `xs[n:]`
unfoldable pub take {ℓ} : {A : Type ℓ} → ℕ → List A → List A
take zero xs = []
take (suc n) [] = []
take (suc n) (x ∷ xs) = x ∷ take n xs

unfoldable pub drop {ℓ} : {A : Type ℓ} → ℕ → List A → List A
drop zero xs = xs
drop (suc n) [] = []
drop (suc n) (x ∷ xs) = drop n xs

pub length-take {ℓ} : {A : Type ℓ} (n : ℕ) (xs : List A) → n ≤ length xs → length (take n xs) ≡ n
unfolding take
length-take zero xs h = refl
length-take (suc n) [] h = absurd (omega (arith, h))
length-take (suc n) (x ∷ xs) h = ap suc (length-take n xs (omega (arith, h)))

pub length-take-drop {ℓ} :
    {A : Type ℓ} (n : ℕ) (xs : List A) → length (take n xs) + length (drop n xs) ≡ length xs
unfolding take drop
length-take-drop zero xs = omega arith
length-take-drop (suc n) [] = omega arith
length-take-drop (suc n) (x ∷ xs) = omega (arith, length-take-drop n xs)

pub All-take {ℓ κ} :
    {A : Type ℓ} (P : A → Type κ) (n : ℕ) (xs : List A) → All P xs → All P (take n xs)
unfolding take
All-take P zero xs h = tt
All-take P (suc n) [] h = tt
All-take P (suc n) (x ∷ xs) h = (h.0, All-take P n xs h.1)

pub All-filter {ℓ κ} :
    {A : Type ℓ} (p : A → Bool) (P : A → Type κ) (xs : List A) → All P xs → All P (filter p xs)
unfolding filter
All-filter p P [] h = tt
All-filter p P (x ∷ xs) h = elim (Bool-cases (p x)) [
  | inl e ↦ rw e (h.0, All-filter p P xs h.1)
  | inr e ↦ rw e (All-filter p P xs h.1)
]

-- `x` is a member.
abbrev pub Has {ℓ} : {A : Type ℓ} → A → List A → Type ℓ
Has x [] = Unit {ℓ} → ⊥
Has x (y ∷ ys) = (y ≡ x) ⊎ Has x ys

module _ {ℓ} {A : Type ℓ} where
  pub Has-map {κ} : {B : Type κ} (f : A → B) (x : A) (xs : List A) → Has x xs → Has (f x) (map f xs)
  Has-map f x [] h = λ u. h tt
  Has-map f x (y ∷ ys) (inl e) = inl (ap f e)
  Has-map f x (y ∷ ys) (inr h) = inr (Has-map f x ys h)

  pub Has-filter :
      (p : A → Bool) (x : A) (xs : List A) → p x ≡ true → Has x xs → Has x (filter p xs)
  unfolding filter
  Has-filter p x [] h g = g
  Has-filter p x (y ∷ ys) h (inl e) = let holds : p y ≡ true = ap p e ∙ h in rw holds (inl e)
  Has-filter p x (y ∷ ys) h (inr g) = elim (Bool-cases (p y)) [
    | inl e ↦ rw e (inr (Has-filter p x ys h g))
    | inr e ↦ rw e (Has-filter p x ys h g)
  ]

  -- No element of a list satisfies what a filter that keeps none looks for.
  pub filter-none : (p : A → Bool) (xs : List A) → filter p xs ≡ [] → All (λ x. p x ≡ false) xs
  unfolding filter
  filter-none p [] e = tt
  filter-none p (x ∷ xs) e = elim (Bool-cases (p x)) [
    | inl h ↦ let bad : x ∷ filter p xs ≡ [] = rw h at e in absurd (ground (arith, bad))
    | inr h ↦ (h, filter-none p xs (rw h at e))
  ]

-- A predicate of every element.
pub All-of_Has {ℓ κ} :
    {A : Type ℓ} (P : A → Type κ) (xs : List A) → ((x : A) → Has x xs → P x) → All P xs
All-of_Has P [] h = tt
All-of_Has P (x ∷ xs) h = (h x (inl refl), All-of_Has P xs (λ y has. h y (inr has)))
