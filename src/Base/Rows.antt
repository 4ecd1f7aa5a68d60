-- ===== src/Base/Rows.antt =====
-- Tables of rows, as SQL statements see them: what an UPDATE with a condition leaves, the row that
-- a query for one row reads, and what holds between any two rows.
use mathlib.Core.Path.{◌≡◌, sym, ◌∙◌, subst}
use mathlib.Core.Logic.{inl, inr}
use mathlib.Core.Bool.{Bool, true, false, ◌&&◌}
use mathlib.Core.List.{List, [], ◌∷◌, ◌++◌}
use mathlib.Core.Option.{Option, none, some}
use native.Mathlib.Omega.{arith}
use training_ops_scheduling.Base.Tests.{Bool-cases, if◌then◌else◌}
use training_ops_scheduling.Base.Lists.{All, All-mono, any, any-false_iff}

module _ {ℓ} {A : Type ℓ} where
  -- `UPDATE ... SET f WHERE p`
  unfoldable pub update_where : (A → Bool) → (A → A) → List A → List A
  update_where p f [] = []
  update_where p f (row ∷ rows) = (if p row then f row else row) ∷ update_where p f rows

  -- `SELECT ... WHERE p`, read with QueryRow: the first row.
  unfoldable pub first_where : (A → Bool) → List A → Option A
  first_where p [] = none
  first_where p (row ∷ rows) = if p row then some row else first_where p rows

  pub first_where-passes :
      (p : A → Bool) (rows : List A) (row : A) → first_where p rows ≡ some row → p row ≡ true
  unfolding first_where
  first_where-passes p [] row h = cc
  first_where-passes p (r ∷ rows) row h = elim (Bool-cases (p r)) [
    | inl e ↦ let found : r ≡ row = ground arith in subst (λ x. p x ≡ true) found e
    | inr e ↦ first_where-passes p rows row (ground arith)
  ]

module _ {ℓ κ} {A : Type ℓ} (P : A → Type κ) where
  pub All-first_where :
      (p : A → Bool) (rows : List A) (row : A) → All P rows → first_where p rows ≡ some row → P row
  unfolding first_where
  All-first_where p [] row h e = cc
  All-first_where p (r ∷ rows) row h e = elim (Bool-cases (p r)) [
    | inl t ↦ let found : r ≡ row = ground arith in subst P found h.0
    | inr t ↦ All-first_where p rows row h.1 (ground arith)
  ]

  pub All-update_where :
      (p : A → Bool) (f : A → A) (rows : List A)
      → ((a : A) → p a ≡ true → P a → P (f a))
      → All P rows
      → All P (update_where p f rows)
  unfolding update_where
  All-update_where p f [] g h = tt
  All-update_where p f (r ∷ rows) g h = elim (Bool-cases (p r)) [
    | inl t ↦ rw t (g r t h.0, All-update_where p f rows g h.1)
    | inr t ↦ rw t (h.0, All-update_where p f rows g h.1)
  ]

module _ {ℓ κ} {A : Type ℓ} (R : A → A → Type κ) where
  -- `R` holds of each row and each later one.
  abbrev pub Pairwise : List A → Type κ
  Pairwise [] = Unit
  Pairwise (a ∷ rows) = All (R a) rows × Pairwise rows

  pub Pairwise-append_one :
      (rows : List A) (b : A) → All (λ a. R a b) rows → Pairwise rows → Pairwise (rows ++ b ∷ [])
  Pairwise-append_one [] b h w = (tt, tt)
  Pairwise-append_one (a ∷ rows) b h w = (spread rows w.0, Pairwise-append_one rows b h.1 w.1)
    where
      spread : (xs : List A) → All (R a) xs → All (R a) (xs ++ b ∷ [])
      spread [] k = (h.0, tt)
      spread (x ∷ xs) k = (k.0, spread xs k.1)

module _ {ℓ κ μ} {A : Type ℓ} (R S : A → A → Type κ) (P : A → Type μ) where
  -- Rows that are changed one by one, where each pair of them stays related.
  pub Pairwise-update_where :
      (p : A → Bool) (f : A → A) (rows : List A)
      → ((a b : A) → P a → P b → R a b → S (if p a then f a else a) (if p b then f b else b))
      → All P rows
      → Pairwise R rows
      → Pairwise S (update_where p f rows)
  unfolding update_where
  Pairwise-update_where p f [] g h w = tt
  Pairwise-update_where p f (a ∷ rows) g h w =
      (spread rows h.1 w.0, Pairwise-update_where p f rows g h.1 w.1)
    where
      spread :
          (xs : List A)
          → All P xs
          → All (R a) xs
          → All (S (if p a then f a else a)) (update_where p f xs)
      spread [] k l = tt
      spread (x ∷ xs) k l = (g a x h.0 k.0 l.0, spread xs k.1 l.1)

module _ {ℓ κ} {A : Type ℓ} (R S : A → A → Type κ) where
  pub Pairwise-mono :
      (rows : List A) → ((a b : A) → R a b → S a b) → Pairwise R rows → Pairwise S rows
  Pairwise-mono [] g w = tt
  Pairwise-mono (a ∷ rows) g w = (spread rows w.0, Pairwise-mono rows g w.1)
    where
      spread : (xs : List A) → All (R a) xs → All (S a) xs
      spread [] l = tt
      spread (x ∷ xs) l = (g a x l.0, spread xs l.1)

module _ {ℓ κ} {A : Type ℓ} (P : A → Type κ) where
  pub All-remove : (xs ys : List A) (a : A) → All P (xs ++ (a ∷ ys)) → P a × All P (xs ++ ys)
  All-remove [] ys a h = (h.0, h.1)
  All-remove (x ∷ xs) ys a h = let (k, rest) = All-remove xs ys a h.1 in (k, (h.0, rest))

module _ {ℓ κ} {A : Type ℓ} (R : A → A → Type κ) (swap : (a b : A) → R a b → R b a) where
  -- A row taken out is related to each of the rest.
  pub Pairwise-remove :
      (xs ys : List A) (a : A)
      → Pairwise R (xs ++ (a ∷ ys))
      → All (R a) (xs ++ ys) × Pairwise R (xs ++ ys)
  Pairwise-remove [] ys a w = (w.0, w.1)
  Pairwise-remove (x ∷ xs) ys a w =
      let (k, rest) = Pairwise-remove xs ys a w.1 in
      let (other, others) = All-remove (R x) xs ys a w.0 in ((swap x a other, k), (others, rest))

module _ {ℓ} {A : Type ℓ} (q : A → Bool) where
  -- A change that does not touch what a query looks for changes the row that it reads.
  pub first_where-update_where :
      (p : A → Bool) (f : A → A) (rows : List A) (row : A)
      → ((a : A) → q (f a) ≡ q a)
      → first_where q rows ≡ some row
      → first_where q (update_where p f rows) ≡ some (if p row then f row else row)
  unfolding first_where update_where
  first_where-update_where p f [] row h e = cc
  first_where-update_where p f (a ∷ rows) row h e = elim (Bool-cases (q a)) [
    | inl t ↦
        let found : a ≡ row = ground arith in
        subst
          (λ r.
            (if q (if p a then f a else a)
              then some (if p a then f a else a)
              else first_where q (update_where p f rows))
            ≡ some (if p r then f r else r))
          found (let same = h a in ground arith)
    | inr t ↦
        let later = first_where-update_where p f rows row h (ground arith) in
        let same = h a in ground arith
  ]

  pub any-first_where :
      (c : A → Bool) (rows : List A) (row : A)
      → first_where q rows ≡ some row
      → c row ≡ true
      → any (λ a. q a && c a) rows ≡ true
  unfolding first_where any
  any-first_where c [] row e h = cc
  any-first_where c (a ∷ rows) row e h = elim (Bool-cases (q a)) [
    | inl t ↦
        let found : a ≡ row = ground arith in
        let at_head : c a ≡ true = subst (λ x. c x ≡ true) (sym found) h in ground arith
    | inr t ↦ let later = any-first_where c rows row (ground arith) h in ground arith
  ]

  -- Where one row at most passes `q`, a further condition is asked of that row.
  pub any_unique :
      (c : A → Bool) (rows : List A) (row : A)
      → first_where q rows ≡ some row
      → All (λ a. q a ≡ true → a ≡ row) rows
      → any (λ a. q a && c a) rows ≡ c row
  any_unique c rows row e only = elim (Bool-cases (c row)) [
    | inl t ↦ any-first_where c rows row e t ∙ sym t
    | inr f ↦
        (any-false_iff (λ a. q a && c a) rows).1 (
          All-mono
            (λ a h. elim (Bool-cases (q a)) [
              | inl t ↦ let at_row = subst (λ x. c x ≡ false) (sym (h t)) f in ground arith
              | inr t ↦ ground arith
            ])
            rows only)
        ∙ sym f
  ]
