-- ===== src/Catalog/Validate.antt =====
-- internal/catalog/catalog.go: the checks of a catalog that is loaded.
use kaa_s_demo.Prelude.Any.{any}
use kaa_s_demo.Prelude.Keys.{is_some}
use kaa_s_demo.Prelude.Int.{ltb_ℤ, pos, ℤ}
use kaa_s_demo.Prelude.{codes, not, text_eq, if◌then◌else◌, Text, Option, List, [], ◌∷◌, none, some}
use kaa_s_demo.Prelude.Dict.{Dict, get, put, empty}
use kaa_s_demo.Catalog.{
  Catalog, Bundle, OsImage, K8sVersion, CatalogAddon, is_valid_status, bundle_named, no_bundle,
  or_no_addon,
}
use kaa_s_demo.Go.Int64.{sub64}
use kaa_s_demo.Go.Strings.{split, atoi_value}

-- minor: the second component of a version, 0 if there is none
abbrev pub second : List Text → ℤ
second (a ∷ b ∷ l) = atoi_value b
second _ = pos 0

unfoldable pub minor : Text → ℤ
minor v = second (split b'.' v)

pub data CatalogError : Type 0 where
  bad_status unknown_os unknown_kubernetes unknown_cni unpinned_cni : Text → CatalogError
  unknown_addon unknown_superseded older skips_minor : Text → Text → CatalogError

unfoldable pub bad_os : List OsImage → Option CatalogError
bad_os [] = none
bad_os (o ∷ os) =
    let rest = bad_os os in
    if not (is_valid_status o.status) then some (bad_status o.name) else rest

unfoldable pub bad_kubernetes : List K8sVersion → Option CatalogError
bad_kubernetes [] = none
bad_kubernetes (k ∷ ks) =
    let rest = bad_kubernetes ks in
    if not (is_valid_status k.status) then some (bad_status k.version) else rest

unfoldable pub bad_addon : List CatalogAddon → Option CatalogError
bad_addon [] = none
bad_addon (a ∷ as') =
    let rest = bad_addon as' in
    if not (is_valid_status a.status) then some (bad_status a.name) else rest

-- addonSet[name]: the last add-on of that name
unfoldable pub addons_onto : List CatalogAddon → Dict CatalogAddon → Dict CatalogAddon
addons_onto [] d = d
addons_onto (a ∷ as') d = addons_onto as' (put d a.name a)

unfoldable pub unknown_pin : Dict CatalogAddon → Text → List (Text × Text) → Option CatalogError
unknown_pin set bundle [] = none
unknown_pin set bundle ((n, v) ∷ l) =
    let rest = unknown_pin set bundle l in
    if not (is_some (get set n)) then some (unknown_addon bundle n) else rest

abbrev pub or_no_bundle : Option Bundle → Bundle
or_no_bundle none = no_bundle
or_no_bundle (some b) = b

-- the check of what a bundle supersedes, with Go's `int` for the difference
unfoldable pub bad_step : Catalog → Bundle → Option CatalogError
bad_step c b =
    let prev = or_no_bundle (bundle_named c.bundles b.supersedes) in
    if text_eq b.supersedes []
    then none
    else if not (any (λ p. text_eq p.name b.supersedes) c.bundles)
    then some (unknown_superseded b.name b.supersedes)
    else if ltb_ℤ (minor b.kubernetes) (minor prev.kubernetes)
    then some (older b.name prev.name)
    else if ltb_ℤ (pos 1) (sub64 (minor b.kubernetes) (minor prev.kubernetes))
    then some (skips_minor b.name prev.name)
    else none

abbrev pub first_error : Option CatalogError → Option CatalogError → Option CatalogError
first_error (some e) next = some e
first_error none next = next

unfoldable pub bad_bundle : Catalog → Bundle → Option CatalogError
bad_bundle c b =
    let set = addons_onto c.addons empty in
    if not (is_valid_status b.status)
    then some (bad_status b.name)
    else if not (any (λ o. text_eq o.name b.os) c.os)
    then some (unknown_os b.name)
    else if not (any (λ k. text_eq k.version b.kubernetes) c.kubernetes)
    then some (unknown_kubernetes b.name)
    else if not (text_eq (or_no_addon (get set b.cni)).kind (codes "cni"))
    then some (unknown_cni b.name)
    else if not (is_some (get b.addons b.cni))
    then some (unpinned_cni b.name)
    else first_error (unknown_pin set b.name b.addons.entries) (bad_step c b)

unfoldable pub bad_bundles : Catalog → List Bundle → Option CatalogError
bad_bundles c [] = none
bad_bundles c (b ∷ bs) = let rest = bad_bundles c bs in first_error (bad_bundle c b) rest

-- Catalog.validate: no error is `none`
unfoldable pub validate : Catalog → Option CatalogError
validate c = first_error (bad_os c.os) (
    first_error (bad_kubernetes c.kubernetes)
      (first_error (bad_addon c.addons) (bad_bundles c c.bundles)))
