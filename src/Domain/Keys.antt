-- ===== src/Domain/Keys.antt =====
-- The identifiers of the domain records (order, machine, customer, setup family ...): each is a
-- number, in the order in which the source compares the texts.
use athena_order_priority.Prelude.{
  ℕ, Bool, true, false, ◌&&◌, List, [], ◌∷◌, Option, none, some, any, ◌==◌, if◌then◌else◌,
}

abbrev pub Key : Type 0
Key = ℕ

-- `k in ks`
unfoldable pub is_in : Key → List Key → Bool
unfolding any
is_in k ks = any (λ j. k == j) ks

-- `a is not None and a == b`
abbrev pub same : Option Key → Option Key → Bool
same none b = false
same (some a) none = false
same (some a) (some b) = a == b

-- `a == b` of two optional texts.
abbrev pub equal : Option Key → Option Key → Bool
equal none none = true
equal none (some b) = false
equal (some a) none = false
equal (some a) (some b) = a == b

-- `ks <= js` of two sets.
unfoldable pub is_subset : List Key → List Key → Bool
unfolding is_in
is_subset [] js = true
is_subset (k ∷ ks) js = is_in k js && is_subset ks js

-- `ks | js` of two sets.
unfoldable pub union : List Key → List Key → List Key
unfolding is_in
union ks [] = ks
union ks (j ∷ js) = let more = union ks js in if is_in j more then more else j ∷ more
