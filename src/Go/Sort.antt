-- ===== src/Go/Sort.antt =====
-- sort.SliceStable: equal elements keep their order.
use kaa_s_demo.Prelude.Any.{any}
use mathlib.Core.List.{
  Perm, perm_middle, Pairwise, Pairwise-singleton, Pairwise-cons, Mem, forall_mem-cons,
}
use mathlib.Core.List.Perm
use mathlib.Core.Bool.{Bool-set}
use kaa_s_demo.Prelude.{
  refl, arith, ◌||◌, ◌∙◌, ◌↔◌, false, inr, inl, true, Bool-cases, ◌≡◌, Bool, List, [], ◌∷◌,
  if◌then◌else◌,
}

module _ {A : Type 0} (less : A → A → Bool) where
  -- x stands before what is not less than it
  unfoldable pub insert : A → List A → List A
  insert x [] = x ∷ []
  insert x (y ∷ ys) = let rest = insert x ys in if less y x then y ∷ rest else x ∷ y ∷ ys

  unfoldable pub stable_sort : List A → List A
  unfolding insert
  stable_sort [] = []
  stable_sort (x ∷ xs) = insert x (stable_sort xs)

  insert-perm : (x : A) (ys : List A) → Perm (insert x ys) (x ∷ ys)
  unfolding insert
  insert-perm x [] = Perm.refl (x ∷ [])
  insert-perm x (y ∷ ys) = elim (Bool-cases (less y x)) [
    | inl smaller ↦
        rw smaller (Perm.trans (Perm.cons y (insert-perm x ys)) (perm_middle (y ∷ []) ys))
    | inr other ↦ rw other (Perm.refl (x ∷ y ∷ ys))
  ]

  pub stable_sort-perm : (xs : List A) → Perm (stable_sort xs) xs
  unfolding stable_sort
  stable_sort-perm [] = Perm.refl []
  stable_sort-perm (x ∷ xs) =
      Perm.trans (insert-perm x (stable_sort xs)) (Perm.cons x (stable_sort-perm xs))

  any-insert : (p : A → Bool) (x : A) (ys : List A) → any p (insert x ys) ≡ (p x || any p ys)
  unfolding insert any
  any-insert p x [] = refl
  any-insert p x (y ∷ ys) = ground (arith, any-insert p x ys)

  pub any-stable_sort : (p : A → Bool) (xs : List A) → any p (stable_sort xs) ≡ any p xs
  unfolding stable_sort any
  any-stable_sort p [] = refl
  any-stable_sort p (x ∷ xs) = any-insert p x (stable_sort xs) ∙ rw (any-stable_sort p xs) refl

  -- A comparison by a key: not less is an order.
  module _ (asym : (a b : A) → less a b ≡ true → less b a ≡ false)
      (flat : (a b c : A) → less b a ≡ false → less c b ≡ false → less c a ≡ false) where
    -- nothing in the list is less than x
    abbrev Above : A → List A → Type 0
    Above x l = (z : A) → Mem z l → less z x ≡ false

    Above-cons : (x y : A) (ys : List A) → Above x (y ∷ ys) ↔ ((less y x ≡ false) × Above x ys)
    Above-cons x y ys = forall_mem-cons (λ z. Bool-set _ _)

    insert-Above :
        (x : A) (ys : List A) (t : A) → less x t ≡ false → Above t ys → Above t (insert x ys)
    unfolding insert
    insert-Above x [] t h hs = (Above-cons t x []).1 (h, hs)
    insert-Above x (y ∷ ys) t h hs = elim (Bool-cases (less y x)) [
      | inl smaller ↦ rw smaller (
          (Above-cons t y (insert x ys)).1
            (((Above-cons t y ys).0 hs).0, insert-Above x ys t h ((Above-cons t y ys).0 hs).1))
      | inr other ↦ rw other ((Above-cons t x (y ∷ ys)).1 (h, hs))
    ]

    insert-Pairwise :
        (x : A) (ys : List A)
        → Pairwise (λ (a b : A). less b a ≡ false) ys
        → Pairwise (λ (a b : A). less b a ≡ false) (insert x ys)
    unfolding insert
    insert-Pairwise x [] p = Pairwise-singleton (λ (a b : A). less b a ≡ false) x
    insert-Pairwise x (y ∷ ys) p = elim (Bool-cases (less y x)) [
      | inl smaller ↦ rw smaller (
          Pairwise-cons.1 (
            insert-Above x ys y (asym y x smaller) (Pairwise-cons.0 p).0,
            insert-Pairwise x ys (Pairwise-cons.0 p).1,
          ))
      | inr other ↦ rw other (
          Pairwise-cons.1
            ((Above-cons x y ys).1 (other, λ z m. flat x y z other ((Pairwise-cons.0 p).0 z m)), p))
    ]

    pub stable_sort-Pairwise :
        (xs : List A) → Pairwise (λ (a b : A). less b a ≡ false) (stable_sort xs)
    unfolding stable_sort
    stable_sort-Pairwise [] = Pairwise.nil
    stable_sort-Pairwise (x ∷ xs) = insert-Pairwise x (stable_sort xs) (stable_sort-Pairwise xs)
