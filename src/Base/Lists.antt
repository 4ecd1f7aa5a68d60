-- ===== src/Base/Lists.antt =====
-- Lists measured by native numbers, and predicates over lists by recursion.
use Prim.Native.Nat.{ℕ, suc, ◌+◌, ◌≤◌}
use mathlib.Core.Path.{◌≡◌, refl}
use mathlib.Core.Bool.{Bool, true, false, ◌||◌}
use mathlib.Core.List.{List, [], ◌∷◌, ◌++◌}
use mathlib.Core.Logic.{inl, inr, ◌↔◌}
use native.Mathlib.Omega.{arith}
use training_ops_scheduling.Base.Tests.{Bool-cases, if◌then◌else◌}

module _ {ℓ} {A : Type ℓ} where
  abbrev pub length : List A → ℕ
  length [] = 0
  length (x ∷ xs) = suc (length xs)

  pub length-append : (xs ys : List A) → length (xs ++ ys) ≡ length xs + length ys
  length-append [] ys = omega arith
  length-append (x ∷ xs) ys = omega (arith, length-append xs ys)

  pub append-eq-nil : (xs ys : List A) → xs ++ ys ≡ [] → (xs ≡ []) × (ys ≡ [])
  append-eq-nil [] ys h = (refl, h)
  append-eq-nil (x ∷ xs) ys h = absurd (cc)

  -- The elements that pass a Boolean test, in order.
  unfoldable pub select : (A → Bool) → List A → List A
  select p [] = []
  select p (x ∷ xs) = let rest = select p xs in if p x then x ∷ rest else rest

  unfoldable pub any : (A → Bool) → List A → Bool
  any p [] = false
  any p (x ∷ xs) = p x || any p xs

  pub any-append : (p : A → Bool) (xs ys : List A) → any p (xs ++ ys) ≡ (any p xs || any p ys)
  unfolding any
  any-append p [] ys = refl
  any-append p (x ∷ xs) ys = ground (arith, any-append p xs ys)

  pub length-select-le : (p : A → Bool) (xs : List A) → length (select p xs) ≤ length xs
  unfolding select
  length-select-le p [] = omega arith
  length-select-le p (x ∷ xs) = ground (arith, length-select-le p xs)

module _ {ℓ κ} {A : Type ℓ} (P : A → Type κ) where
  abbrev pub All : List A → Type κ
  All [] = Unit
  All (x ∷ xs) = P x × All xs

  pub All-append : (xs ys : List A) → All xs → All ys → All (xs ++ ys)
  All-append [] ys hx hy = hy
  All-append (x ∷ xs) ys hx hy = (hx.0, All-append xs ys hx.1 hy)

module _ {ℓ κ} {A : Type ℓ} (P : A → Type κ) where
  -- `P` holds of an element.
  pub data Some : List A → Type (ℓ ⊔ κ) where
    at_head : {x : A} {xs : List A} → P x → Some (x ∷ xs)
    in_tail : {x : A} {xs : List A} → Some xs → Some (x ∷ xs)

module _ {ℓ κ μ} {A : Type ℓ} {P : A → Type κ} {Q : A → Type μ} where
  pub All-mono : ((a : A) → P a → Q a) → (xs : List A) → All P xs → All Q xs
  All-mono f [] h = tt
  All-mono f (x ∷ xs) h = (f x h.0, All-mono f xs h.1)

module _ {ℓ κ} {A : Type ℓ} (P : A → Type κ) (p : A → Bool) where
  -- What holds of the selected elements holds of every element that passes the test.
  pub select-All_iff : (xs : List A) → All P (select p xs) ↔ All (λ x. p x ≡ true → P x) xs
  unfolding select
  select-All_iff [] = (λ h. tt, λ h. tt)
  select-All_iff (x ∷ xs) = elim (Bool-cases (p x)) [
    | inl keep ↦
        rw keep
          (λ h. (λ _. h.0, (select-All_iff xs).0 h.1), λ h. (h.0 refl, (select-All_iff xs).1 h.1))
    | inr drop ↦
        rw drop (λ h. (λ e. absurd (cc), (select-All_iff xs).0 h), λ h. (select-All_iff xs).1 h.1)
  ]

module _ {ℓ} {A : Type ℓ} (p : A → Bool) where
  pub any-false_iff : (xs : List A) → (any p xs ≡ false) ↔ All (λ x. p x ≡ false) xs
  unfolding any
  any-false_iff [] = (λ h. tt, λ h. refl)
  any-false_iff (x ∷ xs) =
      let ih = any-false_iff xs in
      (λ h. (ground arith, ih.0 (ground arith)), λ h. let rest = ih.1 h.1 in ground arith)

module _ {ℓ κ μ} {A : Type ℓ} (P : A → Type κ) (Q : A → Type μ) where
  pub All-zip : (xs : List A) → All P xs → All Q xs → All (λ x. P x × Q x) xs
  All-zip [] h k = tt
  All-zip (x ∷ xs) h k = ((h.0, k.0), All-zip xs h.1 k.1)

pub All-unit {ℓ} : {A : Type ℓ} (xs : List A) → All (λ _. Unit {0}) xs
All-unit [] = tt
All-unit (x ∷ xs) = (tt, All-unit xs)

module _ {ℓ κ} {A : Type ℓ} (P : A → Type κ) (p : A → Bool) where
  -- A test that decides `P` passes for an element exactly when `P` holds of one.
  pub any-Some_iff : ((x : A) → (p x ≡ true) ↔ P x) → (xs : List A) → (any p xs ≡ true) ↔ Some P xs
  unfolding any
  any-Some_iff d [] = (λ h. absurd (cc), λ h. elim h [ ])
  any-Some_iff d (x ∷ xs) = (
    λ h. elim (Bool-cases (p x)) [
      | inl e ↦ at_head ((d x).0 e)
      | inr e ↦ in_tail ((any-Some_iff d xs).0 (ground arith))
    ],
    λ h. elim h [
      | at_head e ↦ let k = (d x).1 e in ground arith
      | in_tail e ↦ let k = (any-Some_iff d xs).1 e in ground arith
    ],
  )
