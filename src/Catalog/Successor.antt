-- ===== src/Catalog/Successor.antt =====
-- internal/catalog/catalog.go: what UpgradesFor finds as the successor of a bundle.
use kaa_s_demo.Prelude.{
  ap, Bool, arith, [], ◌∷◌, some, false, inl, inr, List, Text, ◌≡◌, ◌++◌, text_eq, refl, ◌∙◌,
  Bool-cases, sym,
}
use kaa_s_demo.Prelude.Any.{any}
use kaa_s_demo.Prelude.Dict.{Dict, get, put, empty, get-put, get-put_self}
use kaa_s_demo.Catalog.{Bundle}
use kaa_s_demo.Catalog.Upgrades.{successors_onto}

-- whether a bundle of the list supersedes the one of this name
unfoldable pub supersedes_in : Text → List Bundle → Bool
supersedes_in k bs = any (λ b. text_eq b.supersedes k) bs

successors_onto-append :
    (xs ys : List Bundle) (next : Dict Bundle)
    → successors_onto (xs ++ ys) next ≡ successors_onto ys (successors_onto xs next)
unfolding successors_onto
successors_onto-append [] ys next = refl
successors_onto-append (b ∷ xs) ys next = successors_onto-append xs ys _

successors_onto-other :
    (k : Text) (bs : List Bundle) (next : Dict Bundle)
    → supersedes_in k bs ≡ false
    → get (successors_onto bs next) k ≡ get next k
unfolding successors_onto supersedes_in any
successors_onto-other k [] next h = refl
successors_onto-other k (b ∷ bs) next h = elim (Bool-cases (text_eq b.supersedes [])) [
  | inl none_ ↦ rw none_ (successors_onto-other k bs next (ground arith))
  | inr some_ ↦
      let other : text_eq b.supersedes k ≡ false = ground arith in
      rw some_ (
        successors_onto-other k bs (put next b.supersedes b) (ground arith)
        ∙ rw (get-put next b.supersedes k b, other) refl)
]

-- the last bundle of the list that supersedes it is found
pub last_successor :
    (k : Text) (new : Bundle) (before after : List Bundle)
    → text_eq k [] ≡ false
    → new.supersedes ≡ k
    → supersedes_in k after ≡ false
    → get (successors_onto (before ++ new ∷ after) empty) k ≡ some new
unfolding successors_onto
last_successor k new before after named e h =
    let named' : text_eq new.supersedes [] ≡ false = rw e named in
    rw successors_onto-append (
      rw named' (
        successors_onto-other k after (put (successors_onto before empty) new.supersedes new) h
        ∙ ap (get (put (successors_onto before empty) new.supersedes new)) (sym e)
        ∙ get-put_self (successors_onto before empty) new.supersedes new))
