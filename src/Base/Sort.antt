-- ===== src/Base/Sort.antt =====
-- sort.Slice, by insertion. Go leaves the order of elements that compare equal unspecified; here an
-- element stays behind those it does not precede.
use mathlib.Core.Bool.{Bool}
use mathlib.Core.List.{List, [], ◌∷◌}
use mathlib.Core.Logic.{inl, inr, ◌↔◌}
use training_ops_scheduling.Base.Lists.{All}
use training_ops_scheduling.Base.Tests.{Bool-cases, if◌then◌else◌}

module _ {ℓ} {A : Type ℓ} (less : A → A → Bool) where
  insert_sorted : A → List A → List A
  insert_sorted x [] = x ∷ []
  insert_sorted x (y ∷ ys) =
      let rest = insert_sorted x ys in if less x y then x ∷ y ∷ ys else y ∷ rest

  unfoldable pub sort_slice : List A → List A
  unfolding insert_sorted
  sort_slice [] = []
  sort_slice (x ∷ xs) = insert_sorted x (sort_slice xs)

module _ {ℓ κ} {A : Type ℓ} (less : A → A → Bool) (P : A → Type κ) where
  insert_sorted-All_iff : (x : A) (xs : List A) → All P (insert_sorted less x xs) ↔ (P x × All P xs)
  unfolding insert_sorted
  insert_sorted-All_iff x [] = (λ h. h, λ h. h)
  insert_sorted-All_iff x (y ∷ ys) = elim (Bool-cases (less x y)) [
    | inl front ↦ rw front (λ h. h, λ h. h)
    | inr later ↦
        let ih = insert_sorted-All_iff x ys in
        rw later (λ h. ((ih.0 h.1).0, (h.0, (ih.0 h.1).1)), λ h. (h.1.0, ih.1 (h.0, h.1.1)))
  ]

  -- A sorted slice has the elements of the slice.
  pub sort_slice-All_iff : (xs : List A) → All P (sort_slice less xs) ↔ All P xs
  unfolding sort_slice
  sort_slice-All_iff [] = (λ h. h, λ h. h)
  sort_slice-All_iff (x ∷ xs) =
      let ih = sort_slice-All_iff xs in
      let here = insert_sorted-All_iff x (sort_slice less xs) in
      (λ h. ((here.0 h).0, ih.0 (here.0 h).1), λ h. here.1 (h.0, ih.1 h.1))
