-- ===== src/Domain/Admission/Sound.antt =====
-- internal/domain/domain.go: the disks that ValidateNodeDisks accepts.
use mathlib.Core.Path.{subst}
use kaa_s_demo.Prelude.Keys.{IsDistinct, has}
use kaa_s_demo.Prelude.Int.{◌≤ℤ◌, pos}
use kaa_s_demo.Prelude.Any.{All, any}
use kaa_s_demo.Domain.Node.{NodeDisk}
use kaa_s_demo.Domain.Cluster.{Cluster}
use kaa_s_demo.Prelude.{
  inr, inl, Bool-cases, refl, ◌+◌, ◌≤◌, text_eq_iff, text_eq_refl, map, List, ◌<◌, text_eq, arith,
  ◌≡◌, Text, [], ◌∷◌, none, true, false,
}
use kaa_s_demo.Domain.Admission.{
  Checked, checked, nothing_checked, validate_disk, validate_disks, validate_node_disks,
  validate_mount_path, is_worker_of, count_of, slash, protected_mounts,
}

abbrev pub disk_key : NodeDisk → Text
disk_key d = slash d.vm_name d.name

abbrev pub mount_key : NodeDisk → Text
mount_key d = slash d.vm_name d.mount_path

abbrev pub disk_vm : NodeDisk → Text
disk_vm d = d.vm_name

-- A disk of a worker, of an allowed size, mounted over no system directory.
abbrev pub IsUsable : Cluster → NodeDisk → Type 0
IsUsable c d =
    (is_worker_of c d.vm_name ≡ true)
    × (pos 1 ≤ℤ d.size_gb)
    × (d.size_gb ≤ℤ pos 2000)
    × (any (λ p. text_eq d.mount_path p) protected_mounts ≡ false)

mount_allowed :
    (path : Text)
    → validate_mount_path path ≡ none
    → any (λ p. text_eq path p) protected_mounts ≡ false
unfolding validate_mount_path
mount_allowed path h = ground arith

-- what one disk has passed
module _ (c : Cluster) (k : Checked) (d : NodeDisk) (pass : validate_disk c k d ≡ none) where
  pass_worker : is_worker_of c d.vm_name ≡ true
  unfolding validate_disk
  pass_worker = ground arith

  pass_rest :
      (has k.seen (disk_key d) ≡ false)
      × (count_of d.vm_name k.nodes < 8)
      × (pos 1 ≤ℤ d.size_gb)
      × (d.size_gb ≤ℤ pos 2000)
      × (validate_mount_path d.mount_path ≡ none)
      × (has k.mounts (mount_key d) ≡ false)
  unfolding validate_disk
  pass_rest = ground arith

-- What holds of the disks that are still to come, after those that are checked.
record IsFollowing (c : Cluster) (k : Checked) (ds : List NodeDisk) : Type 0 where
  usable : All (IsUsable c) ds
  names : IsDistinct (map disk_key ds)
  new_names : (x : Text) → has k.seen x ≡ true → has (map disk_key ds) x ≡ false
  mounts : IsDistinct (map mount_key ds)
  new_mounts : (x : Text) → has k.mounts x ≡ true → has (map mount_key ds) x ≡ false
  few :
      (vm : Text) → count_of vm k.nodes ≤ 8 → count_of vm k.nodes + count_of vm (map disk_vm ds) ≤ 8

-- a key that is new, before keys that are new after it
new_head :
    (key : NodeDisk → Text) (seen : List Text) (d : NodeDisk) (ds : List NodeDisk)
    → has seen (key d) ≡ false
    → ((x : Text) → has (key d ∷ seen) x ≡ true → has (map key ds) x ≡ false)
    → (x : Text) → has seen x ≡ true
    → has (map key (d ∷ ds)) x ≡ false
unfolding has
new_head key seen d ds fresh later x h = ground (arith, later x, text_eq_iff (key d) x)

-- room for one more disk on a node, before the disks that follow it
few_head :
    (d : NodeDisk) (ds : List NodeDisk) (nodes : List Text) (vm : Text)
    → count_of d.vm_name nodes < 8
    → count_of vm nodes ≤ 8
    → (count_of vm (d.vm_name ∷ nodes) ≤ 8
        → count_of vm (d.vm_name ∷ nodes) + count_of vm (map disk_vm ds) ≤ 8)
    → count_of vm nodes + count_of vm (map disk_vm (d ∷ ds)) ≤ 8
unfolding count_of
few_head d ds nodes vm room le later = elim (Bool-cases (text_eq d.vm_name vm)) [
  | inl same ↦
      let here_ : count_of vm nodes < 8 =
        subst (λ (x : Text). count_of x nodes < 8) ((text_eq_iff d.vm_name vm).0 same) room in
      ground (arith, later)
  | inr other ↦ ground (arith, later)
]

validate_disks-IsFollowing :
    (c : Cluster) (k : Checked) (ds : List NodeDisk)
    → validate_disks c k ds ≡ none
    → IsFollowing c k ds
unfolding validate_disks checked
validate_disks-IsFollowing c k [] h = record {
  usable = tt;
  names = tt;
  new_names = λ x _. unfold has in refl;
  mounts = tt;
  new_mounts = λ x _. unfold has in refl;
  few = λ vm h. unfold count_of in omega arith;
}
validate_disks-IsFollowing c k (d ∷ ds) h =
    let pass : validate_disk c k d ≡ none = ground arith in
    let ih = validate_disks-IsFollowing c (checked k d) ds (ground arith) in
    let (fresh, room, low, high, mount, free) = pass_rest c k d pass in
    record {
      usable = ((pass_worker c k d pass, low, high, mount_allowed d.mount_path mount), ih.usable);
      names = (
        ih.new_names (disk_key d) (unfold has in ground (arith, text_eq_refl (disk_key d))),
        ih.names,
      );
      new_names = new_head disk_key k.seen d ds fresh ih.new_names;
      mounts = (
        ih.new_mounts (mount_key d) (unfold has in ground (arith, text_eq_refl (mount_key d))),
        ih.mounts,
      );
      new_mounts = new_head mount_key k.mounts d ds free ih.new_mounts;
      few = λ vm le. few_head d ds k.nodes vm room le (ih.few vm);
    }

-- If ValidateNodeDisks accepts the disks of a cluster, each is on a worker that the cluster wants, has
-- 1 to 2000 GB and a mount path that is no protected directory, no two have one node and name, no two
-- have one node and mount path, and no VM has more than 8.
pub validate_node_disks_sound :
    (c : Cluster) (disks : List NodeDisk)
    → validate_node_disks c disks ≡ none
    → All (IsUsable c) disks
      × IsDistinct (map disk_key disks)
      × IsDistinct (map mount_key disks)
      × ((vm : Text) → count_of vm (map disk_vm disks) ≤ 8)
unfolding validate_node_disks
validate_node_disks_sound c disks h =
    let f = validate_disks-IsFollowing c nothing_checked disks h in
    (f.usable, f.names, f.mounts, λ vm. unfold count_of in ground (arith, f.few vm))
