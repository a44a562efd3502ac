-- ===== src/Examples/Catalog.antt =====
-- The release catalog at concrete inputs.
use kaa_s_demo.Catalog.Successor.{supersedes_in}
use kaa_s_demo.Go.Int64.{wrap64, sub64}
use kaa_s_demo.Prelude.Int.{◌≤ℤ◌, pos}
use kaa_s_demo.Prelude.Keys.{has}
use kaa_s_demo.Go.Strings.{digits_from, unsigned, atoi_value, split}
use kaa_s_demo.Prelude.Any.{any}
use kaa_s_demo.Prelude.{false, refl, ◌≡◌, codes, text_eq, Text, [], ◌∷◌, none, some}
use kaa_s_demo.Prelude.Dict.{get, put, empty, lookup, replace}
use kaa_s_demo.Catalog.{
  Catalog, Bundle, Status, supported, deprecated, bundle_named, is_valid_status,
}
use kaa_s_demo.Catalog.Upgrades.{successors_onto, walk, upgrades_for, next_upgrade}
use kaa_s_demo.Catalog.Validate.{
  validate, bad_os, bad_kubernetes, bad_addon, bad_bundles, bad_bundle, bad_step, minor,
  addons_onto, unknown_pin,
}
use kaa_s_demo.Catalog.Hops.{next_upgrade_hop}

abbrev bundle : Text → Status → Text → Text → Bundle
bundle name status version old = record {
  name = name;
  status = status;
  os = codes "ubuntu";
  kubernetes = version;
  cni = codes "cilium";
  addons = record { entries = (codes "cilium", codes "1.18") ∷ [] };
  supersedes = old;
}

abbrev old_bundle : Bundle
old_bundle = bundle (codes "a") supported (codes "1.35.0") []

abbrev mid_bundle : Status → Bundle
mid_bundle status = bundle (codes "b") status (codes "1.36.0") (codes "a")

abbrev new_bundle : Bundle
new_bundle = bundle (codes "c") supported (codes "1.37.0") (codes "b")

-- three bundles, one minor apart each; the one in the middle has a status of its own
abbrev catalog : Status → Catalog
catalog status = record {
  os = record { name = codes "ubuntu"; status = supported } ∷ [];
  kubernetes =
      record { version = codes "1.35.0"; status = supported }
      ∷ record { version = codes "1.36.0"; status = supported }
      ∷ record { version = codes "1.37.0"; status = supported }
      ∷ [];
  addons =
      record {
        name = codes "cilium";
        kind = codes "cni";
        version = [];
        status = supported;
        priority = pos 0;
      }
      ∷ [];
  bundles = old_bundle ∷ mid_bundle status ∷ new_bundle ∷ [];
}

catalog_valid : validate (catalog supported) ≡ none
unfolding validate bad_os bad_kubernetes bad_addon bad_bundles bad_bundle bad_step minor addons_onto
    unknown_pin any text_eq get put empty lookup replace is_valid_status bundle_named split
    atoi_value unsigned digits_from sub64 wrap64
catalog_valid = refl

none_after : supersedes_in (codes "a") (new_bundle ∷ []) ≡ false
unfolding supersedes_in any text_eq
none_after = refl

old_known : bundle_named (catalog supported).bundles (codes "a") ≡ some old_bundle
unfolding bundle_named text_eq
old_known = refl

next_upgrade_hop_example :
    (next_upgrade (catalog supported) (codes "a") ≡ some (mid_bundle supported))
    × (minor (codes "1.35.0") ≤ℤ minor (codes "1.36.0"))
    × (sub64 (minor (codes "1.36.0")) (minor (codes "1.35.0")) ≤ℤ pos 1)
unfolding text_eq
next_upgrade_hop_example =
    next_upgrade_hop (catalog supported) (codes "a") old_bundle (mid_bundle supported)
      (old_bundle ∷ []) (new_bundle ∷ []) catalog_valid refl old_known refl refl none_after refl

-- with the one in the middle deprecated, the catalog is valid still, and the next upgrade leaves a
-- minor out
middle_deprecated : validate (catalog deprecated) ≡ none
unfolding validate bad_os bad_kubernetes bad_addon bad_bundles bad_bundle bad_step minor addons_onto
    unknown_pin any text_eq get put empty lookup replace is_valid_status bundle_named split
    atoi_value unsigned digits_from sub64 wrap64
middle_deprecated = refl

minor_left_out : next_upgrade (catalog deprecated) (codes "a") ≡ some new_bundle
unfolding next_upgrade upgrades_for walk successors_onto get put empty lookup replace text_eq has
minor_left_out = refl

-- two bundles supersede one: the last of them is the next upgrade
abbrev rival : Bundle
rival = bundle (codes "d") supported (codes "1.36.0") (codes "a")

last_wins :
    next_upgrade
      (record (catalog supported) { bundles = old_bundle ∷ mid_bundle supported ∷ rival ∷ [] })
      (codes "a")
    ≡ some rival
unfolding next_upgrade upgrades_for walk successors_onto get put empty lookup replace text_eq has
last_wins = refl
