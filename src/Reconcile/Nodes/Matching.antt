-- ===== src/Reconcile/Nodes/Matching.antt =====
-- internal/reconcile/reconcile.go: two lists of names, as nodesConverged compares them.
use mathlib.Core.List.{Perm, Permᴰ, perm_middle}
use mathlib.Core.List.Perm
use kaa_s_demo.Prelude.{
  ◌+◌, ◌∙◌, [], ◌∷◌, true, inl, inr, suc, List, Text, ◌≡◌, ◌++◌, ◌≢◌, length, text_eq, text_eq_iff,
  text_eq_refl, refl, sym, ap, arith, Bool-cases, length-append,
}
use kaa_s_demo.Prelude.Keys.{has}
use kaa_s_demo.Domain.Desired.Names.{Absent, AllDistinct}
use kaa_s_demo.Reconcile.Nodes.{all_in}

pub all_in_more :
    (k : Text) (ks have : List Text) → all_in ks have ≡ true → all_in ks (k ∷ have) ≡ true
unfolding all_in has
all_in_more k [] have h = refl
all_in_more k (j ∷ ks) have h = ground (arith, all_in_more k ks have)

pub all_in_self : (ks : List Text) → all_in ks ks ≡ true
unfolding all_in has
all_in_self [] = refl
all_in_self (k ∷ ks) = ground (arith, text_eq_refl k, all_in_more k ks ks, all_in_self ks)

-- a name of the list, and what stands before and after it
split_at :
    (k : Text) (ys : List Text)
    → has ys k ≡ true
    → (before : List Text) × (after : List Text) × (ys ≡ before ++ k ∷ after)
unfolding has
split_at k [] h = absurd (ground arith)
split_at k (y ∷ ys) h = elim (Bool-cases (text_eq y k)) [
  | inl same ↦ ([], ys, ap (λ (z : Text). z ∷ ys) ((text_eq_iff y k).0 same))
  | inr other ↦
      let (before, after, e) = split_at k ys (ground arith) in
      (y ∷ before, after, ap (λ (zs : List Text). y ∷ zs) e)
]

has-middle :
    (k j : Text) (before after : List Text)
    → j ≢ k
    → has (before ++ j ∷ after) k ≡ has (before ++ after) k
unfolding has
has-middle k j [] after other = ground (arith, text_eq_iff j k)
has-middle k j (b ∷ before) after other = ground (arith, has-middle k j before after other)

-- a name that is looked for no more can be left out
all_in-middle :
    (k : Text) (xs before after : List Text)
    → Absent k xs
    → all_in xs (before ++ k ∷ after) ≡ all_in xs (before ++ after)
unfolding all_in Absent
all_in-middle k [] before after h = refl
all_in-middle k (x ∷ xs) before after (other, h) =
    ground (arith, has-middle x k before after other, all_in-middle k xs before after h)

-- distinct names that are all among as many others are those others
pub all_in-Perm :
    (xs ys : List Text) → AllDistinct xs → length xs ≡ length ys → all_in xs ys ≡ true → Perm xs ys
unfolding all_in AllDistinct
all_in-Perm [] [] d e h = Perm.refl []
all_in-Perm [] (y ∷ ys) d e h = absurd (omega arith)
all_in-Perm (x ∷ xs) ys (absent, d) e h =
    let (before, after, cut) = split_at x ys (ground arith) in
    by_split before after cut (λ e' h'. all_in-Perm xs (before ++ after) d e' h')
  where
    by_split :
        (before after : List Text)
        → ys ≡ before ++ x ∷ after
        → (length xs ≡ length (before ++ after)
            → all_in xs (before ++ after) ≡ true
            → Perm xs (before ++ after))
        → Perm (x ∷ xs) ys
    by_split before after cut others =
        let longer : length ys ≡ length before + suc (length after) =
          ap length cut ∙ length-append before (x ∷ after) in
        let rest : all_in xs ys ≡ true = ground arith in
        let among : all_in xs (before ++ after) ≡ true =
          sym (all_in-middle x xs before after absent) ∙ ap (all_in xs) (sym cut) ∙ rest in
        let same : length xs ≡ length (before ++ after) =
          omega (arith, length-append before after) in
        rw cut (Perm.trans (Perm.cons x (others same among)) (Perm.symm (perm_middle before after)))

pub length-Permᴰ : {xs ys : List Text} → Permᴰ xs ys → length xs ≡ length ys
length-Permᴰ Permᴰ.nil = refl
length-Permᴰ (Permᴰ.cons e p) = ap suc (length-Permᴰ p)
length-Permᴰ (Permᴰ.swap d e) = refl
length-Permᴰ (Permᴰ.trans p q) = length-Permᴰ p ∙ length-Permᴰ q

pub has-Permᴰ : {xs ys : List Text} (k : Text) → Permᴰ xs ys → has xs k ≡ has ys k
unfolding has
has-Permᴰ k Permᴰ.nil = refl
has-Permᴰ k (Permᴰ.cons e p) = ground (arith, has-Permᴰ k p)
has-Permᴰ k (Permᴰ.swap d e) = ground arith
has-Permᴰ k (Permᴰ.trans p q) = has-Permᴰ k p ∙ has-Permᴰ k q

-- what a list of names has in it decides whether others are all among them
pub all_in-has :
    (ks as' bs : List Text) → ((k : Text) → has as' k ≡ has bs k) → all_in ks as' ≡ all_in ks bs
unfolding all_in
all_in-has [] as' bs h = refl
all_in-has (k ∷ ks) as' bs h = ground (arith, h k, all_in-has ks as' bs h)
