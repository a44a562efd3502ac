-- ===== src/Catalog/Hops.antt =====
-- internal/catalog/catalog.go: the walk of UpgradesFor ends, and its first hop.
use kaa_s_demo.Catalog.Successor.{last_successor, supersedes_in}
use kaa_s_demo.Go.Int64.{sub64}
use kaa_s_demo.Prelude.Int.{pos, ◌≤ℤ◌}
use kaa_s_demo.Prelude.Keys.{has}
use kaa_s_demo.Prelude.{
  ◌++◌, Option, refl, text_eq_iff, ap, some_inj, ◌∙◌, Bool-cases, Option-cases, sym, text_eq_refl,
  if◌then◌else◌, text_eq, arith, length, ◌<◌, ◌⊎◌, ℕ, ◌≤◌, Text, ◌≡◌, List, [], ◌∷◌, none, some,
  true, false, inl, inr, zero, suc,
}
use kaa_s_demo.Prelude.Dict.{Dict, get, put, empty, get-put, get-empty}
use kaa_s_demo.Catalog.{Catalog, Bundle, is_supported, bundle_named}
use kaa_s_demo.Catalog.Upgrades.{successors_onto, walk, upgrades_for, next_upgrade}
use kaa_s_demo.Catalog.Validate.{
  addons_onto, unknown_pin, bad_addon, bad_kubernetes, bad_os, first_error, CatalogError, validate,
  bad_bundles, bad_bundle, bad_step, minor,
}

-- the bundles whose names are not among those seen
unfoldable fresh : List Text → List Bundle → ℕ
fresh seen [] = 0
fresh seen (b ∷ bs) = let rest = fresh seen bs in if has seen b.name then rest else suc rest

fresh_le : (k : Text) (seen : List Text) (bs : List Bundle) → fresh (k ∷ seen) bs ≤ fresh seen bs
unfolding fresh has
fresh_le k seen [] = omega arith
fresh_le k seen (b ∷ bs) = let ih = fresh_le k seen bs in ground arith

fresh_all : (seen : List Text) (bs : List Bundle) → fresh seen bs ≤ length bs
unfolding fresh
fresh_all seen [] = omega arith
fresh_all seen (b ∷ bs) = let ih = fresh_all seen bs in ground arith

-- a bundle of the list
unfoldable IsListed : Bundle → List Bundle → Type 0
IsListed b [] = ⊥
IsListed b (a ∷ as') = (a ≡ b) ⊎ IsListed b as'

fresh_less :
    (b : Bundle) (seen : List Text) (bs : List Bundle)
    → IsListed b bs
    → has seen b.name ≡ false
    → fresh (b.name ∷ seen) bs < fresh seen bs
unfolding fresh IsListed has
fresh_less b seen [] h new = absurd h
fresh_less b seen (a ∷ bs) (inl e) new =
    let le = fresh_le b.name seen bs in
    let same : text_eq b.name a.name ≡ true = rw e (text_eq_refl b.name) in
    let new' : has seen a.name ≡ false = rw e new in ground arith
fresh_less b seen (a ∷ bs) (inr h) new = let ih = fresh_less b seen bs h new in ground arith

-- what is found for a name supersedes it and is a bundle of the catalog
successor :
    (bs : List Bundle) (next : Dict Bundle) (k : Text) (s : Bundle)
    → get (successors_onto bs next) k ≡ some s
    → (get next k ≡ some s)
      ⊎ (IsListed s bs × (s.supersedes ≡ k) × (text_eq s.supersedes [] ≡ false))
unfolding successors_onto IsListed
successor [] next k s h = inl h
successor (b ∷ bs) next k s h = elim (Bool-cases (text_eq b.supersedes [])) [
  | inl none_ ↦
      let h' : get (successors_onto bs next) k ≡ some s = sym (simp (successors_onto, none_)) ∙ h in
      elim (successor bs next k s h') [
        | inl old ↦ inl old
        | inr (l, e, named) ↦ inr (inr l, e, named)
      ]
  | inr some_ ↦
      let h' : get (successors_onto bs (put next b.supersedes b)) k ≡ some s =
        sym (simp (successors_onto, some_)) ∙ h in
      elim (successor bs (put next b.supersedes b) k s h') [
        | inr (l, e, named) ↦ inr (inr l, e, named)
        | inl found ↦ elim (Bool-cases (text_eq b.supersedes k)) [
          | inr other ↦ inl (sym (rw (get-put next b.supersedes k b, other) refl) ∙ found)
          | inl same ↦
              let e : some b ≡ some s =
                sym (rw (get-put next b.supersedes k b, same) refl) ∙ found in
              let one : b ≡ s = some_inj e in
              inr (
                inl one,
                ap (λ (x : Bundle). x.supersedes) (sym one) ∙ (text_eq_iff _ _).0 same,
                rw (← one) some_,
              )
        ]
      ]
]

successor_of :
    (bs : List Bundle) (k : Text) (s : Bundle)
    → get (successors_onto bs empty) k ≡ some s
    → IsListed s bs × (s.supersedes ≡ k) × (text_eq s.supersedes [] ≡ false)
successor_of bs k s h = elim (successor bs empty k s h) [
  | inr listed ↦ listed
  | inl none_ ↦ let no_ : none ≡ some s = sym (get-empty k) ∙ none_ in cc
]

-- with more fuel than there are fresh bundles the walk ends
walk_ends :
    (bs : List Bundle) (f : ℕ) (seen : List Text) (cur : Text)
    → fresh seen bs < f
    → (out : List Bundle) × (walk f (successors_onto bs empty) seen cur ≡ some out)
unfolding walk
walk_ends bs zero seen cur h = absurd (omega arith)
walk_ends bs (suc f) seen cur h = elim (Option-cases (get (successors_onto bs empty) cur)) [
  | inl end_ ↦ ([], simp (walk, end_))
  | inr (b, found) ↦ elim (Bool-cases (has seen b.name)) [
    | inl again ↦ ([], simp (walk, found, again))
    | inr new ↦
        let (listed, e, named) = successor_of bs cur b found in
        let less = fresh_less b seen bs listed new in
        let (out, ended) = walk_ends bs f (b.name ∷ seen) b.name (omega arith) in
        (if is_supported b.status then b ∷ out else out, simp (walk, found, new, ended))
  ]
]

-- For every bundle, known or not, the walk along the bundles that supersede one another ends.
pub upgrades_for_ends :
    (c : Catalog) (current : Text) → (out : List Bundle) × (upgrades_for c current ≡ some out)
unfolding upgrades_for
upgrades_for_ends c current =
    let le = fresh_all [] c.bundles in
    walk_ends c.bundles (suc (suc (length c.bundles))) [] current (omega arith)

none_of_else : (a b : Option CatalogError) → first_error a b ≡ none → (a ≡ none) × (b ≡ none)
none_of_else none b h = (refl, h)
none_of_else (some e) b h = cc

-- what a valid catalog says of each bundle of it
step_of :
    (c : Catalog) (s : Bundle) (bs : List Bundle)
    → bad_bundles c bs ≡ none
    → IsListed s bs
    → bad_bundle c s ≡ none
unfolding bad_bundles IsListed
step_of c s [] h l = absurd l
step_of c s (b ∷ bs) h (inl e) =
    let passed : bad_bundle c b ≡ none = (none_of_else (bad_bundle c b) (bad_bundles c bs) h).0 in
    rw (← e) passed
step_of c s (b ∷ bs) h (inr l) =
    step_of c s bs (none_of_else (bad_bundle c b) (bad_bundles c bs) h).1 l

step_passed : (c : Catalog) (b : Bundle) → bad_bundle c b ≡ none → bad_step c b ≡ none
unfolding bad_bundle
step_passed c b h =
    let last =
      none_of_else (unknown_pin (addons_onto c.addons empty) b.name b.addons.entries)
        (bad_step c b) in
    ground arith

-- the two checks of Kubernetes versions
minors_of :
    (c : Catalog) (b old : Bundle)
    → text_eq b.supersedes [] ≡ false
    → bundle_named c.bundles b.supersedes ≡ some old
    → bad_step c b ≡ none
    → (minor old.kubernetes ≤ℤ minor b.kubernetes)
      × (sub64 (minor b.kubernetes) (minor old.kubernetes) ≤ℤ pos 1)
unfolding bad_step
minors_of c b old named prev h = ground arith

-- In a catalog that passes its checks, let a bundle supersede one that is known and whose name is
-- not empty, and let no bundle listed after it supersede that one as well; if it is supported, it is
-- the next upgrade, its Kubernetes is not older by minor version, and the difference of the minors as
-- an int is at most 1.
pub next_upgrade_hop :
    (c : Catalog) (current : Text) (old new : Bundle) (before after : List Bundle)
    → validate c ≡ none
    → text_eq current [] ≡ false
    → bundle_named c.bundles current ≡ some old
    → c.bundles ≡ before ++ new ∷ after
    → new.supersedes ≡ current
    → supersedes_in current after ≡ false
    → is_supported new.status ≡ true
    → (next_upgrade c current ≡ some new)
      × (minor old.kubernetes ≤ℤ minor new.kubernetes)
      × (sub64 (minor new.kubernetes) (minor old.kubernetes) ≤ℤ pos 1)
unfolding validate next_upgrade upgrades_for walk has
next_upgrade_hop c current old new before after valid told known listed_so supersedes last good =
    let found : get (successors_onto c.bundles empty) current ≡ some new =
      rw listed_so (last_successor current new before after told supersedes last) in
    let (listed, key, named) = successor_of c.bundles current new found in
    let a = none_of_else (bad_os c.os) _ valid in
    let b = none_of_else (bad_kubernetes c.kubernetes) _ a.1 in
    let checks = none_of_else (bad_addon c.addons) (bad_bundles c c.bundles) b.1 in
    let pass = step_of c new c.bundles checks.1 listed in
    let step = step_passed c new pass in
    let prev : bundle_named c.bundles new.supersedes ≡ some old = rw key known in
    let (newer, small) = minors_of c new old named prev step in
    let more : fresh (new.name ∷ []) c.bundles < suc (length c.bundles) =
      let few = fresh_all (new.name ∷ []) c.bundles in omega arith in
    let (out, ended) = walk_ends c.bundles (suc (length c.bundles)) (new.name ∷ []) new.name more in
    (simp (walk, found, ended, good), newer, small)
