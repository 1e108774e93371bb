-- ===== src/Prelude/Sort.antt =====
-- Python's `sorted(xs, key=...)`: a stable sort by a Boolean order on the keys.
use Prim.Native.Nat.{suc}
use mathlib.Core.Path.{◌≡◌, refl, ap, ◌∙◌}
use mathlib.Core.Logic.{inl, inr}
use mathlib.Core.Bool.{Bool, true, false}
use mathlib.Core.List.{List, [], ◌∷◌, Perm}
use mathlib.Core.List.Perm
use native.Mathlib.Omega.{arith}
use athena_order_priority.Prelude.Tests.{if◌then◌else◌, Bool-cases}
use athena_order_priority.Prelude.Lists.{All, any, Has, length}

-- A total preorder given by its Boolean test.
pub record IsOrder {ℓ} {A : Type ℓ} (le : A → A → Bool) : Type ℓ where
  pub total : (x y : A) → le x y ≡ false → le y x ≡ true
  pub trans : (x y z : A) → le x y ≡ true → le y z ≡ true → le x z ≡ true

module _ {ℓ} {A : Type ℓ} (le : A → A → Bool) where
  -- Before the first element that is not smaller: equal keys keep their order.
  unfoldable pub insert_by : A → List A → List A
  insert_by x [] = x ∷ []
  insert_by x (y ∷ ys) = let rest = insert_by x ys in if le x y then x ∷ y ∷ ys else y ∷ rest

  unfoldable pub sort_by : List A → List A
  unfolding insert_by
  sort_by [] = []
  sort_by (x ∷ xs) = insert_by x (sort_by xs)

  -- Each element is at most every later one.
  abbrev pub IsSortedBy : List A → Type 0
  IsSortedBy [] = Unit
  IsSortedBy (x ∷ xs) = All (λ y. le x y ≡ true) xs × IsSortedBy xs

  insert_by-perm : (x : A) (xs : List A) → Perm (insert_by x xs) (x ∷ xs)
  unfolding insert_by
  insert_by-perm x [] = Perm.rfl
  insert_by-perm x (y ∷ ys) = elim (Bool-cases (le x y)) [
    | inl e ↦ rw e Perm.rfl
    | inr e ↦ rw e (Perm.trans (Perm.cons y (insert_by-perm x ys)) (Perm.swap x y ys))
  ]

  pub sort_by-perm : (xs : List A) → Perm (sort_by xs) xs
  unfolding sort_by
  sort_by-perm [] = Perm.rfl
  sort_by-perm (x ∷ xs) = Perm.trans (insert_by-perm x (sort_by xs)) (Perm.cons x (sort_by-perm xs))

  pub All-insert_by {κ} :
      (P : A → Type κ) (x : A) (xs : List A) → P x → All P xs → All P (insert_by x xs)
  unfolding insert_by
  All-insert_by P x [] p h = (p, tt)
  All-insert_by P x (y ∷ ys) p h = elim (Bool-cases (le x y)) [
    | inl e ↦ rw e (p, h)
    | inr e ↦ rw e (h.0, All-insert_by P x ys p h.1)
  ]

  pub All-sort_by {κ} : (P : A → Type κ) (xs : List A) → All P xs → All P (sort_by xs)
  unfolding sort_by
  All-sort_by P [] h = tt
  All-sort_by P (x ∷ xs) h = All-insert_by P x (sort_by xs) h.0 (All-sort_by P xs h.1)

  All-inserted {κ} :
      (P : A → Type κ) (x : A) (xs : List A) → All P (insert_by x xs) → P x × All P xs
  unfolding insert_by
  All-inserted P x [] h = h
  All-inserted P x (y ∷ ys) h = elim (Bool-cases (le x y)) [
    | inl e ↦ rw e at h
    | inr e ↦
        let both = rw e at h in let (px, rest) = All-inserted P x ys both.1 in (px, (both.0, rest))
  ]

  pub All-sorted {κ} : (P : A → Type κ) (xs : List A) → All P (sort_by xs) → All P xs
  unfolding sort_by
  All-sorted P [] h = tt
  All-sorted P (x ∷ xs) h =
      let (px, rest) = All-inserted P x (sort_by xs) h in (px, All-sorted P xs rest)

  length-insert_by : (x : A) (xs : List A) → length (insert_by x xs) ≡ suc (length xs)
  unfolding insert_by
  length-insert_by x [] = refl
  length-insert_by x (y ∷ ys) = elim (Bool-cases (le x y)) [
    | inl e ↦ rw e refl
    | inr e ↦ rw e (ap suc (length-insert_by x ys))
  ]

  pub length-sort_by : (xs : List A) → length (sort_by xs) ≡ length xs
  unfolding sort_by
  length-sort_by [] = refl
  length-sort_by (x ∷ xs) = length-insert_by x (sort_by xs) ∙ ap suc (length-sort_by xs)

  any-insert_by : (p : A → Bool) (x : A) (xs : List A) → any p (insert_by x xs) ≡ any p (x ∷ xs)
  unfolding insert_by any
  any-insert_by p x [] = refl
  any-insert_by p x (y ∷ ys) = ground (arith, any-insert_by p x ys)

  pub any-sort_by : (p : A → Bool) (xs : List A) → any p (sort_by xs) ≡ any p xs
  unfolding sort_by any
  any-sort_by p [] = refl
  any-sort_by p (x ∷ xs) = ground (arith, any-sort_by p xs, any-insert_by p x (sort_by xs))

module _ {ℓ} {A : Type ℓ} (le : A → A → Bool) (order : IsOrder le) where
  below-All :
      (x y : A) (ys : List A)
      → le x y ≡ true
      → All (λ z. le y z ≡ true) ys
      → All (λ z. le x z ≡ true) ys
  below-All x y [] e h = tt
  below-All x y (z ∷ zs) e h = (order.trans x y z e h.0, below-All x y zs e h.1)

  insert_by-IsSortedBy :
      (x : A) (xs : List A) → IsSortedBy le xs → IsSortedBy le (insert_by le x xs)
  unfolding insert_by
  insert_by-IsSortedBy x [] h = (tt, tt)
  insert_by-IsSortedBy x (y ∷ ys) h = elim (Bool-cases (le x y)) [
    | inl e ↦ rw e ((e, below-All x y ys e h.0), h)
    | inr e ↦ rw e (
      All-insert_by le (λ z. le y z ≡ true) x ys (order.total x y e) h.0,
      insert_by-IsSortedBy x ys h.1,
    )
  ]

  pub sort_by-IsSortedBy : (xs : List A) → IsSortedBy le (sort_by le xs)
  unfolding sort_by
  sort_by-IsSortedBy [] = tt
  sort_by-IsSortedBy (x ∷ xs) = insert_by-IsSortedBy x (sort_by le xs) (sort_by-IsSortedBy xs)

module _ {ℓ} {A : Type ℓ} (le : A → A → Bool) (x : A) where
  insert_by-here : (xs : List A) (y : A) → y ≡ x → Has x (insert_by le y xs)
  unfolding insert_by
  insert_by-here [] y e = inl e
  insert_by-here (z ∷ zs) y e = elim (Bool-cases (le y z)) [
    | inl h ↦ rw h (inl e)
    | inr h ↦ rw h (inr (insert_by-here zs y e))
  ]

  insert_by-there : (y : A) (xs : List A) → Has x xs → Has x (insert_by le y xs)
  unfolding insert_by
  insert_by-there y [] h = absurd (h tt)
  insert_by-there y (z ∷ zs) h = elim (Bool-cases (le y z)) [
    | inl e ↦ rw e (inr h)
    | inr e ↦ rw e (elim h [ inl g ↦ inl g | inr g ↦ inr (insert_by-there y zs g) ])
  ]

  pub Has-sort_by : (xs : List A) → Has x xs → Has x (sort_by le xs)
  unfolding sort_by
  Has-sort_by [] h = h
  Has-sort_by (y ∷ ys) (inl e) = insert_by-here (sort_by le ys) y e
  Has-sort_by (y ∷ ys) (inr h) = insert_by-there y (sort_by le ys) (Has-sort_by ys h)
