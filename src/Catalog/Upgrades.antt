-- ===== src/Catalog/Upgrades.antt =====
-- internal/catalog/catalog.go: the bundles that a bundle can be promoted to.
use kaa_s_demo.Prelude.Keys.{has}
use kaa_s_demo.Prelude.{
  not, ◌&&◌, text_eq, length, if◌then◌else◌, Text, ℕ, Option, List, [], ◌∷◌, none, some, zero, suc,
}
use kaa_s_demo.Prelude.Dict.{Dict, get, put, empty}
use kaa_s_demo.Catalog.{Catalog, Bundle, is_supported}

unfoldable pub supersededs : List Bundle → List Text
supersededs [] = []
supersededs (b ∷ bs) =
    let rest = supersededs bs in if text_eq b.supersedes [] then rest else b.supersedes ∷ rest

unfoldable pub first_head : List Text → List Bundle → Option Bundle
first_head replaced [] = none
first_head replaced (b ∷ bs) =
    let rest = first_head replaced bs in
    if is_supported b.status && not (has replaced b.name) then some b else rest

unfoldable pub latest_supported_bundle : Catalog → Option Bundle
latest_supported_bundle c = first_head (supersededs c.bundles) c.bundles

-- for _, b := range c.Bundles { if b.Supersedes != "" { next[b.Supersedes] = b } }
unfoldable pub successors_onto : List Bundle → Dict Bundle → Dict Bundle
successors_onto [] next = next
successors_onto (b ∷ bs) next =
    successors_onto bs (if text_eq b.supersedes [] then next else put next b.supersedes b)

-- The loop of UpgradesFor from `cur`, on fuel: `none` is out of fuel.
unfoldable pub walk : ℕ → Dict Bundle → List Text → Text → Option (List Bundle)
walk zero next seen cur = none
walk (suc f) next seen cur = elim (get next cur) [
  | none ↦ some []
  | some b ↦ if has seen b.name then some [] else elim (walk f next (b.name ∷ seen) b.name) [
    | none ↦ none
    | some out ↦ some (if is_supported b.status then b ∷ out else out)
  ]
]

unfoldable pub upgrades_for : Catalog → Text → Option (List Bundle)
upgrades_for c current =
    walk (suc (suc (length c.bundles))) (successors_onto c.bundles empty) [] current

abbrev pub first_of_path : Option (List Bundle) → Option Bundle
first_of_path (some (b ∷ bs)) = some b
first_of_path _ = none

unfoldable pub next_upgrade : Catalog → Text → Option Bundle
next_upgrade c current = first_of_path (upgrades_for c current)
