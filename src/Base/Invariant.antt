-- ===== src/Base/Invariant.antt =====
-- Invariants of tables: what holds at each entry, and what holds between any two values.
use Prim.Native.String.{String}
use mathlib.Core.Path.{◌≡◌, sym, subst}
use mathlib.Core.Logic.{inl, inr, ◌≢◌, ◌↔◌}
use mathlib.Core.List.{[], ◌∷◌}
use mathlib.Core.Option.{some}
use native.Mathlib.Omega.{arith}
use training_ops_scheduling.Base.Tests.{str_eq, str_eq_iff, Bool-cases}
use training_ops_scheduling.Base.Lists.{All}
use training_ops_scheduling.Base.Table.{Table, lookup, insert, update_all, values}

module _ {ℓ κ} {V : Type ℓ} (P : String → V → Type κ) where
  -- `P` holds of each entry.
  abbrev pub Each : Table V → Type κ
  Each [] = Unit
  Each ((k, v) ∷ m) = P k v × Each m

  pub Each-lookup : (k : String) (m : Table V) (v : V) → Each m → lookup k m ≡ some v → P k v
  unfolding lookup
  Each-lookup k [] v h e = cc
  Each-lookup k ((j, w) ∷ m) v h e = elim (Bool-cases (str_eq j k)) [
    | inl same ↦ subst (P k) (cc) (subst (λ i. P i w) ((str_eq_iff j k).0 same) h.0)
    | inr other ↦ Each-lookup k m v h.1 (rw (other) at e)
  ]

  pub Each-insert : (k : String) (v : V) (m : Table V) → P k v → Each m → Each (insert k v m)
  unfolding insert
  Each-insert k v [] p h = (p, tt)
  Each-insert k v ((j, w) ∷ m) p h = elim (Bool-cases (str_eq j k)) [
    | inl same ↦ rw same (subst (λ i. P i v) (sym ((str_eq_iff j k).0 same)) p, h.1)
    | inr other ↦ rw other (h.0, Each-insert k v m p h.1)
  ]

  pub Each-update_all :
      (f : V → V) (m : Table V)
      → ((k : String) (v : V) → P k v → P k (f v))
      → Each m
      → Each (update_all f m)
  unfolding update_all
  Each-update_all f [] g h = tt
  Each-update_all f ((j, w) ∷ m) g h = (g j w h.0, Each-update_all f m g h.1)

module _ {ℓ κ μ} {V : Type ℓ} (P : String → V → Type κ) (Q : String → V → Type μ) where
  pub Each-mono : (m : Table V) → ((k : String) (v : V) → P k v → Q k v) → Each P m → Each Q m
  Each-mono [] g h = tt
  Each-mono ((k, v) ∷ m) g h = (g k v h.0, Each-mono m g h.1)

module _ {ℓ κ} {V : Type ℓ} (R : V → V → Type κ) where
  -- `R` holds of each value and each later one.
  abbrev pub Pairs : Table V → Type κ
  Pairs [] = Unit
  Pairs ((k, v) ∷ m) = Each (λ _ w. R v w) m × Pairs m

  pub Pairs-update_all :
      (f : V → V) (m : Table V)
      → ((v w : V) → R v w → R (f v) (f w))
      → Pairs m
      → Pairs (update_all f m)
  unfolding update_all
  Pairs-update_all f [] g h = tt
  Pairs-update_all f ((j, w) ∷ m) g h = (spread m h.0, Pairs-update_all f m g h.1)
    where
      spread : (n : Table V) → Each (λ _ v. R w v) n → Each (λ _ v. R (f w) v) (update_all f n)
      spread [] c = tt
      spread ((i, v) ∷ n) c = (g w v c.0, spread n c.1)

-- A write of a value that is related to every other one keeps the relation.
module _ {ℓ κ} {V : Type ℓ} (R : V → V → Type κ) (swap : (v w : V) → R v w → R w v) where
  pub Pairs-insert :
      (k : String) (v : V) (m : Table V)
      → Each (λ _ w. R v w) m
      → Pairs R m
      → Pairs R (insert k v m)
  unfolding insert
  Pairs-insert k v [] c h = (tt, tt)
  Pairs-insert k v ((j, w) ∷ m) c h = elim (Bool-cases (str_eq j k)) [
    | inl same ↦ rw same (c.1, h.1)
    | inr other ↦
        rw other (Each-insert (λ _ u. R w u) k v m (swap v w c.0) h.0, Pairs-insert k v m c.1 h.1)
  ]

  -- A write that replaces the value found at the key by one related to all that the old one was.
  pub Pairs-replace :
      (k : String) (u v : V) (m : Table V)
      → ((w : V) → R u w → R v w)
      → lookup k m ≡ some u
      → Pairs R m
      → Pairs R (insert k v m)
  unfolding insert lookup
  Pairs-replace k u v [] g e h = (tt, tt)
  Pairs-replace k u v ((j, w) ∷ m) g e h = elim (Bool-cases (str_eq j k)) [
    | inl same ↦
        let found : w ≡ u = ground arith in
        rw same (
          Each-mono (λ _ y. R w y) (λ _ y. R v y) m (λ _ y r. g y (subst (λ x. R x y) found r)) h.0,
          h.1,
        )
    | inr other ↦
        let e' : lookup k m ≡ some u = ground arith in
        rw other (
          Each-insert (λ _ y. R w y) k v m
              (swap v w (g w (swap w u (Each-lookup (λ _ y. R w y) k m u h.0 e')))) h.0,
          Pairs-replace k u v m g e' h.1,
        )
  ]

module _ {ℓ κ μ} {V : Type ℓ} (R : V → V → Type κ) (S : V → V → Type μ) where
  pub Pairs-mono : (m : Table V) → ((v w : V) → R v w → S v w) → Pairs R m → Pairs S m
  Pairs-mono [] g h = tt
  Pairs-mono ((k, v) ∷ m) g h =
      (Each-mono (λ _ w. R v w) (λ _ w. S v w) m (λ _ w. g v w) h.0, Pairs-mono m g h.1)

module _ {ℓ κ} {V : Type ℓ} (R : V → V → Type κ) (swap : (v w : V) → R v w → R w v) where
  -- The values at two different keys are related.
  pub Pairs-lookup :
      (j k : String) (v w : V) (m : Table V)
      → j ≢ k
      → lookup j m ≡ some v
      → lookup k m ≡ some w
      → Pairs R m
      → R v w
  unfolding lookup
  Pairs-lookup j k v w [] ne ev ew h = cc
  Pairs-lookup j k v w ((i, u) ∷ m) ne ev ew h = elim (Bool-cases (str_eq i j)) [
    | inl here ↦
        let head : u ≡ v = ground arith in
        let later : lookup k m ≡ some w =
          ground (arith, str_eq_iff i j, str_eq_iff i k, str_eq_iff j k) in
        subst (λ x. R x w) head (Each-lookup (λ _ y. R u y) k m w h.0 later)
    | inr away ↦ elim (Bool-cases (str_eq i k)) [
      | inl here ↦
          let head : u ≡ w = ground arith in
          let later : lookup j m ≡ some v = ground arith in
          swap w v (subst (λ x. R x v) head (Each-lookup (λ _ y. R u y) j m v h.0 later))
      | inr far ↦ Pairs-lookup j k v w m ne (ground arith) (ground arith) h.1
    ]
  ]

module _ {ℓ κ} {V : Type ℓ} (P : V → Type κ) where
  pub values-All_iff : (m : Table V) → All P (values m) ↔ Each (λ _ v. P v) m
  unfolding values
  values-All_iff [] = (λ h. h, λ h. h)
  values-All_iff ((k, v) ∷ m) =
      let ih = values-All_iff m in (λ h. (h.0, ih.0 h.1), λ h. (h.0, ih.1 h.1))
