-- ===== src/Etcd/Snapshot/Newest.antt =====
-- internal/domain/etcdsnapshot.go: which snapshot a recovery uses.
use mathlib.Core.Path.{subst}
use kaa_s_demo.Go.Time.{after, Duration, Time}
use native.Mathlib.Bridge.{le_prop}
use mathlib.Core.List.Perm
use mathlib.Core.List.{not-mem-nil, Mem, mem-cons_self, mem-cons_of_mem, forall_mem-cons}
use kaa_s_demo.Prelude.{
  if◌then◌else◌, Bool, true, ap, ◌∙◌, sym, false, ◌≡◌, Bool-cases, ◌↔◌, arith, ◌≤◌, List, [], ◌∷◌,
  inl, inr,
}
use kaa_s_demo.Etcd.Snapshot.{
  EtcdSnapshot, EtcdSnapshotPolicy, newest_of, restorable_snapshot, too_old, restoring, is_too_old,
  age,
}

-- no snapshot of the list is newer
abbrev pub NoneNewer : EtcdSnapshot → List EtcdSnapshot → Type 0
NoneNewer r l = (b : EtcdSnapshot) → Mem b l → b.taken_at ≤ r.taken_at

NoneNewer-cons :
    (r y : EtcdSnapshot) (ys : List EtcdSnapshot)
    → NoneNewer r (y ∷ ys) ↔ ((y.taken_at ≤ r.taken_at) × NoneNewer r ys)
NoneNewer-cons r y ys = forall_mem-cons (λ x. le_prop)

newest_of-newer :
    (n s : EtcdSnapshot) (ss : List EtcdSnapshot)
    → after s.taken_at n.taken_at ≡ true
    → newest_of n (s ∷ ss) ≡ newest_of s ss
unfolding newest_of
newest_of-newer n s ss newer = ap (λ (b : Bool). newest_of (if b then s else n) ss) newer

newest_of-older :
    (n s : EtcdSnapshot) (ss : List EtcdSnapshot)
    → after s.taken_at n.taken_at ≡ false
    → newest_of n (s ∷ ss) ≡ newest_of n ss
unfolding newest_of
newest_of-older n s ss older = ap (λ (b : Bool). newest_of (if b then s else n) ss) older

newest_of-le : (n : EtcdSnapshot) (ss : List EtcdSnapshot) → n.taken_at ≤ (newest_of n ss).taken_at
unfolding newest_of
newest_of-le n [] = omega arith
newest_of-le n (s ∷ ss) = elim (Bool-cases (after s.taken_at n.taken_at)) [
  | inl newer ↦ rw (newest_of-newer n s ss newer) (ground (arith, newest_of-le s ss))
  | inr older ↦ rw (newest_of-older n s ss older) (newest_of-le n ss)
]

newest_of-NoneNewer :
    (n : EtcdSnapshot) (ss : List EtcdSnapshot) → NoneNewer (newest_of n ss) (n ∷ ss)
unfolding newest_of
newest_of-NoneNewer n [] = (NoneNewer-cons n n []).1 (omega arith, (λ b m. absurd (not-mem-nil m)))
newest_of-NoneNewer n (s ∷ ss) = elim (Bool-cases (after s.taken_at n.taken_at)) [
  | inl newer ↦ rw (newest_of-newer n s ss newer) (
      let rest : NoneNewer (newest_of s ss) (s ∷ ss) = newest_of-NoneNewer s ss in
      (NoneNewer-cons (newest_of s ss) n (s ∷ ss)).1 (ground (arith, newest_of-le s ss), rest))
  | inr older ↦ rw (newest_of-older n s ss older) (
      let rest : (n.taken_at ≤ (newest_of n ss).taken_at) × NoneNewer (newest_of n ss) ss =
        (NoneNewer-cons (newest_of n ss) n ss).0 (newest_of-NoneNewer n ss) in
      (NoneNewer-cons (newest_of n ss) n (s ∷ ss)).1
        (rest.0, (NoneNewer-cons (newest_of n ss) s ss).1 (ground arith, rest.1)))
]

newest_of-Mem : (n : EtcdSnapshot) (ss : List EtcdSnapshot) → Mem (newest_of n ss) (n ∷ ss)
unfolding newest_of
newest_of-Mem n [] = mem-cons_self
newest_of-Mem n (s ∷ ss) = elim (Bool-cases (after s.taken_at n.taken_at)) [
  | inl newer ↦ rw (newest_of-newer n s ss newer) (mem-cons_of_mem n (newest_of-Mem s ss))
  | inr older ↦
      rw (newest_of-older n s ss older)
        ((Perm.mem_iff (Perm.swap n s ss)).0 (mem-cons_of_mem s (newest_of-Mem n ss)))
]

-- A recovery uses a stored snapshot that none is newer than, and that is not beyond the limit.
pub restores_newest :
    (snaps : List EtcdSnapshot) (p : EtcdSnapshotPolicy) (now : Time) (r : EtcdSnapshot)
    (old : Duration)
    → restorable_snapshot snaps p now ≡ restoring r old
    → Mem r snaps × NoneNewer r snaps × (is_too_old p r now ≡ false) × (old ≡ age r now)
unfolding restorable_snapshot
restores_newest [] p now r old h = cc
restores_newest (s ∷ ss) p now r old h = elim (Bool-cases (is_too_old p (newest_of s ss) now)) [
  | inl bad ↦
      let no : too_old (age (newest_of s ss) now) p.max_restore_age ≡ restoring r old =
        sym (simp (restorable_snapshot, bad)) ∙ h in
      cc
  | inr good ↦
      let same : restoring (newest_of s ss) (age (newest_of s ss) now) ≡ restoring r old =
        sym (simp (restorable_snapshot, good)) ∙ h in
      let e : newest_of s ss ≡ r = cc in
      let e' : age (newest_of s ss) now ≡ old = cc in
      subst
        (λ (q : EtcdSnapshot).
          Mem q (s ∷ ss) × NoneNewer q (s ∷ ss) × (is_too_old p q now ≡ false) × (old ≡ age q now))
        e (newest_of-Mem s ss, newest_of-NoneNewer s ss, good, sym e')
]
