-- ===== src/Catalog.antt =====
-- internal/catalog/catalog.go: the inventory of versions, its release bundles and their upgrades.
-- Maps of add-ons are ranged in the order of their entries. What is only shown or passed on to Helm
-- (URLs, descriptions, values, timeouts) is left out.
pub mod Upgrades
pub mod Validate
pub mod Successor
pub mod Hops
use kaa_s_demo.Domain.Disks.{text_less}
use kaa_s_demo.Prelude.Keys.{has, is_some}
use kaa_s_demo.Prelude.Any.{any}
use kaa_s_demo.Go.Sort.{stable_sort}
use kaa_s_demo.Go.Strings.{atoi_value, split}
use kaa_s_demo.Prelude.{
  zero, codes, ◌&&◌, length, ltb, suc, ◌||◌, if◌then◌else◌, text_eq, List, Option, Text, Bool, not,
  ℕ, [], ◌∷◌, none, some, true, false, inl, inr,
}
use kaa_s_demo.Prelude.Int.{ℤ, pos, ltb_ℤ}
use kaa_s_demo.Prelude.Dict.{Dict, get, put, empty}

pub data Status : Type 0 where
  supported deprecated eol : Status
  other : Text → Status

abbrev pub is_supported : Status → Bool
is_supported supported = true
is_supported _ = false

-- Status.valid
unfoldable pub is_valid_status : Status → Bool
is_valid_status (other t) = false
is_valid_status _ = true

pub record OsImage : Type 0 where
  pub name : Text
  pub status : Status

pub record K8sVersion : Type 0 where
  pub version : Text
  pub status : Status

pub record CatalogAddon : Type 0 where
  pub name : Text
  pub kind : Text
  pub version : Text
  pub status : Status
  pub priority : ℤ

pub record Bundle : Type 0 where
  pub name : Text
  pub status : Status
  pub os : Text
  pub kubernetes : Text
  pub cni : Text
  pub addons : Dict Text
  pub supersedes : Text

pub record Catalog : Type 0 where
  pub os : List OsImage
  pub kubernetes : List K8sVersion
  pub addons : List CatalogAddon
  pub bundles : List Bundle

-- the zero values, for a name that is not found
abbrev pub no_os : OsImage
no_os = record { name = []; status = other [] }

abbrev pub no_addon : CatalogAddon
no_addon = record { name = []; kind = []; version = []; status = other []; priority = pos 0 }

abbrev pub no_bundle : Bundle
no_bundle = record {
  name = [];
  status = other [];
  os = [];
  kubernetes = [];
  cni = [];
  addons = empty;
  supersedes = [];
}

unfoldable pub os_named : List OsImage → Text → Option OsImage
os_named [] name = none
os_named (o ∷ os) name = let rest = os_named os name in if text_eq o.name name then some o else rest

unfoldable pub k8s_named : List K8sVersion → Text → Option K8sVersion
k8s_named [] version = none
k8s_named (k ∷ ks) version =
    let rest = k8s_named ks version in if text_eq k.version version then some k else rest

unfoldable pub addon_named : List CatalogAddon → Text → Option CatalogAddon
addon_named [] name = none
addon_named (a ∷ as') name =
    let rest = addon_named as' name in if text_eq a.name name then some a else rest

unfoldable pub bundle_named : List Bundle → Text → Option Bundle
bundle_named [] name = none
bundle_named (b ∷ bs) name =
    let rest = bundle_named bs name in if text_eq b.name name then some b else rest

pub record ResolvedBundle : Type 0 where
  pub name : Text
  pub os : OsImage
  pub kubernetes : Text
  pub cni : CatalogAddon
  pub addons : List CatalogAddon

-- SortAddons: by priority, then by name
unfoldable pub sorts_before : CatalogAddon → CatalogAddon → Bool
sorts_before a b =
    if ltb_ℤ a.priority b.priority || ltb_ℤ b.priority a.priority
    then ltb_ℤ a.priority b.priority
    else text_less a.name b.name

unfoldable pub sort_addons : List CatalogAddon → List CatalogAddon
sort_addons = stable_sort sorts_before

abbrev pub version_or_empty : Option Text → Text
version_or_empty none = []
version_or_empty (some v) = v

abbrev pub or_no_addon : Option CatalogAddon → CatalogAddon
or_no_addon none = no_addon
or_no_addon (some a) = a

abbrev pub or_no_os : Option OsImage → OsImage
or_no_os none = no_os
or_no_os (some o) = o

-- the loop of Resolve
unfoldable pub pinned_addons : Catalog → Text → List (Text × Text) → List CatalogAddon
pinned_addons c cni [] = []
pinned_addons c cni ((n, v) ∷ l) =
    let rest = pinned_addons c cni l in
    if text_eq n cni
    then rest
    else record (or_no_addon (addon_named c.addons n)) { version = v } ∷ rest

-- an unknown bundle is an error
unfoldable pub resolve : Catalog → Text → Option ResolvedBundle
resolve c name = elim (bundle_named c.bundles name) [
  | none ↦ none
  | some b ↦ some (record {
    name = b.name;
    os = or_no_os (os_named c.os b.os);
    kubernetes = b.kubernetes;
    cni = record (or_no_addon (addon_named c.addons b.cni)) {
      version = version_or_empty (get b.addons b.cni);
    };
    addons = sort_addons (pinned_addons c b.cni b.addons.entries);
  })
]

pub record AddonChange : Type 0 where
  pub name : Text
  pub from : Text
  pub to : Text

pub record BundleDiff : Type 0 where
  pub os_changed : Bool
  pub k8s_changed : Bool
  pub cni_changed : Bool
  pub addon_changes : List AddonChange

unfoldable pub versions_onto : List CatalogAddon → Dict Text → Dict Text
versions_onto [] d = d
versions_onto (a ∷ as') d = versions_onto as' (put d a.name a.version)

unfoldable pub changes_from : Dict Text → List CatalogAddon → List AddonChange
changes_from old [] = []
changes_from old (a ∷ as') =
    let rest = changes_from old as' in
    let change : AddonChange = record {
      name = a.name;
      from = version_or_empty (get old a.name);
      to = a.version;
    } in
    elim (get old a.name) [
      | none ↦ change ∷ rest
      | some v ↦ if text_eq v a.version then rest else change ∷ rest
    ]

unfoldable pub diff_resolved : ResolvedBundle → ResolvedBundle → BundleDiff
diff_resolved old new = record {
  os_changed = not (text_eq old.os.name new.os.name);
  k8s_changed = not (text_eq old.kubernetes new.kubernetes);
  cni_changed =
      not (text_eq old.cni.name new.cni.name) || not (text_eq old.cni.version new.cni.version);
  addon_changes = changes_from (versions_onto old.addons empty) new.addons;
}

-- BundleDiff.Changed
unfoldable pub is_changed : BundleDiff → Bool
is_changed d = d.os_changed || d.k8s_changed || d.cni_changed || ltb 0 (length d.addon_changes)
