-- ===== src/Prelude/Dicts.antt =====
-- Python's dict from numbered keys, as an association list in the order of insertion.
use Prim.Native.Nat.{ℕ}
use mathlib.Core.Path.{◌≡◌, refl, sym, ap, ◌∙◌}
use mathlib.Core.Logic.{inl, inr}
use mathlib.Core.Bool.{false}
use mathlib.Core.Option.{Option, none, some}
use mathlib.Core.List.{List, [], ◌∷◌, ◌++◌}
use native.Mathlib.Omega.{arith}
use athena_order_priority.Prelude.Tests.{if◌then◌else◌, ◌==◌, Bool-cases}

abbrev pub Dict {ℓ} : Type ℓ → Type ℓ
Dict A = List (ℕ × A)

module _ {ℓ} {A : Type ℓ} where
  -- `d.get(k)`
  unfoldable pub get : ℕ → Dict A → Option A
  get k [] = none
  get k (entry ∷ rest) = let later = get k rest in if k == entry.0 then some entry.1 else later

  -- `d[k] = v`
  unfoldable pub put : ℕ → A → Dict A → Dict A
  put k v [] = (k, v) ∷ []
  put k v (entry ∷ rest) =
      let later = put k v rest in if k == entry.0 then (k, v) ∷ rest else entry ∷ later

  -- The second dict when there is no value.
  abbrev pub unless_there : Option A → Dict A → Dict A → Dict A
  unless_there none changed d = changed
  unless_there (some old) changed d = d

  -- `d.setdefault(k, v)`
  unfoldable pub set_default : ℕ → A → Dict A → Dict A
  unfolding get put
  set_default k v d = unless_there (get k d) (put k v d) d

  pub get-put :
      (k j : ℕ) (v : A) (d : Dict A) → get k (put j v d) ≡ (if k == j then some v else get k d)
  unfolding get put
  get-put k j v [] = refl
  get-put k j v (entry ∷ rest) = elim (Bool-cases (j == entry.0)) [
    | inl e ↦ rw e (elim (Bool-cases (k == j)) [
      | inl f ↦ rw f refl
      | inr f ↦ let g : (k == entry.0) ≡ false = ground (arith, e, f) in rw f (rw g refl)
    ])
    | inr e ↦ rw e (elim (Bool-cases (k == entry.0)) [
      | inl f ↦ let g : (k == j) ≡ false = ground (arith, e, f) in rw f (rw g refl)
      | inr f ↦ rw f (get-put k j v rest)
    ])
  ]

  -- The value that stays when `a` is there already.
  abbrev pub or_first : Option A → Option A → Option A
  or_first none b = b
  or_first (some a) b = some a

  pub or_first-none : (a : Option A) → or_first a none ≡ a
  or_first-none none = refl
  or_first-none (some a) = refl

  pub get-set_default :
      (k j : ℕ) (v : A) (d : Dict A)
      → get k (set_default j v d) ≡ or_first (get k d) (if k == j then some v else none)
  unfolding set_default
  get-set_default k j v d = go (get j d) refl
    where
      go :
          (o : Option A)
          → get j d ≡ o
          → get k (unless_there o (put j v d) d)
            ≡ or_first (get k d) (if k == j then some v else none)
      go none e = get-put k j v d ∙ elim (Bool-cases (k == j)) [
        | inl f ↦
            let g : k ≡ j = ground (arith, f) in
            let h : get k d ≡ none = ap (λ i. get i d) g ∙ e in rw f (rw h refl)
        | inr f ↦ rw f (sym (or_first-none (get k d)))
      ]
      go (some old) e = elim (Bool-cases (k == j)) [
        | inl f ↦
            let g : k ≡ j = ground (arith, f) in
            let h : get k d ≡ some old = ap (λ i. get i d) g ∙ e in rw f (rw h refl)
        | inr f ↦ rw f (sym (or_first-none (get k d)))
      ]

abbrev pub or_nil {ℓ} : {A : Type ℓ} → Option (List A) → List A
or_nil none = []
or_nil (some xs) = xs

-- `d[k].append(v)` of a `defaultdict(list)`
unfoldable pub get_list {ℓ} : {A : Type ℓ} → ℕ → Dict (List A) → List A
unfolding get
get_list k d = or_nil (get k d)

unfoldable pub append_at {ℓ} : {A : Type ℓ} → ℕ → A → Dict (List A) → Dict (List A)
unfolding get_list put
append_at k v d = put k (get_list k d ++ v ∷ []) d

pub get_list-append_at {ℓ} :
    {A : Type ℓ} (k j : ℕ) (v : A) (d : Dict (List A))
    → get_list k (append_at j v d) ≡ (if k == j then get_list k d ++ v ∷ [] else get_list k d)
unfolding get_list append_at
get_list-append_at k j v d =
    ap or_nil (get-put k j (get_list j d ++ v ∷ []) d) ∙ elim (Bool-cases (k == j)) [
      | inl e ↦ let f : k ≡ j = ground (arith, e) in rw e (ap (λ i. get_list i d ++ v ∷ []) (sym f))
      | inr e ↦ rw e refl
    ]
