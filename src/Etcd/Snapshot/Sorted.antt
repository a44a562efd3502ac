-- ===== src/Etcd/Snapshot/Sorted.antt =====
-- internal/domain/etcdsnapshot.go: the insertion sort of the snapshots.
use kaa_s_demo.Go.Time.{after, Time}
use mathlib.Core.List.{
  reverse_aux, append-nil, perm_middle, Pairwise-singleton, Mem, Pairwise, Perm, forall_mem-cons,
  Pairwise-cons, Pairwise-reverse, reverse_perm,
}
use mathlib.Core.List.Perm
use native.Mathlib.Bridge.{le_prop}
use kaa_s_demo.Prelude.{
  refl, ap, ◌+◌, suc, ◌≡◌, length, ◌++◌, arith, ◌≤◌, ◌↔◌, Bool-cases, List, [], ◌∷◌, inl, inr,
}
use kaa_s_demo.Etcd.Snapshot.{EtcdSnapshot, sink, sort_onto, newest_first}

-- every snapshot was taken at `t` or later
abbrev AtLeast : Time → List EtcdSnapshot → Type 0
AtLeast t l = (x : EtcdSnapshot) → Mem x l → t ≤ x.taken_at

-- from the oldest to the newest
abbrev pub Rising : List EtcdSnapshot → Type 0
Rising l = Pairwise (λ (a b : EtcdSnapshot). a.taken_at ≤ b.taken_at) l

abbrev pub Falling : List EtcdSnapshot → Type 0
Falling l = Pairwise (λ (a b : EtcdSnapshot). b.taken_at ≤ a.taken_at) l

taken_prop : (t : Time) (x : EtcdSnapshot) → IsProp (t ≤ x.taken_at)
taken_prop t x = le_prop

AtLeast-cons :
    (t : Time) (y : EtcdSnapshot) (ys : List EtcdSnapshot)
    → AtLeast t (y ∷ ys) ↔ ((t ≤ y.taken_at) × AtLeast t ys)
AtLeast-cons t y ys = forall_mem-cons (λ x. taken_prop t x)

sink-AtLeast :
    (x : EtcdSnapshot) (ys : List EtcdSnapshot) (t : Time)
    → t ≤ x.taken_at
    → AtLeast t ys
    → AtLeast t (sink x ys)
unfolding sink
sink-AtLeast x [] t h hs = (AtLeast-cons t x []).1 (h, hs)
sink-AtLeast x (y ∷ ys) t h hs = elim (Bool-cases (after x.taken_at y.taken_at)) [
  | inl newer ↦ rw newer (
      (AtLeast-cons t y (sink x ys)).1
        (((AtLeast-cons t y ys).0 hs).0, sink-AtLeast x ys t h ((AtLeast-cons t y ys).0 hs).1))
  | inr older ↦ rw older ((AtLeast-cons t x (y ∷ ys)).1 (h, hs))
]

sink-Rising : (x : EtcdSnapshot) (ys : List EtcdSnapshot) → Rising ys → Rising (sink x ys)
unfolding sink
sink-Rising x [] r = Pairwise-singleton (λ (a b : EtcdSnapshot). a.taken_at ≤ b.taken_at) x
sink-Rising x (y ∷ ys) r = elim (Bool-cases (after x.taken_at y.taken_at)) [
  | inl newer ↦ rw newer (
      Pairwise-cons.1 (
        sink-AtLeast x ys y.taken_at (ground arith) (Pairwise-cons.0 r).0,
        sink-Rising x ys (Pairwise-cons.0 r).1,
      ))
  | inr older ↦ rw older (
      Pairwise-cons.1 (
        (AtLeast-cons x.taken_at y ys).1
            (ground arith, λ z m. ground (arith, (Pairwise-cons.0 r).0 z m)),
        r,
      ))
]

sink_perm : (x : EtcdSnapshot) (ys : List EtcdSnapshot) → Perm (sink x ys) (x ∷ ys)
unfolding sink
sink_perm x [] = Perm.refl (x ∷ [])
sink_perm x (y ∷ ys) = elim (Bool-cases (after x.taken_at y.taken_at)) [
  | inl newer ↦ rw newer (Perm.trans (Perm.cons y (sink_perm x ys)) (Perm.swap x y ys))
  | inr older ↦ rw older (Perm.refl (x ∷ y ∷ ys))
]

sort_onto-Rising : (done xs : List EtcdSnapshot) → Rising done → Rising (sort_onto done xs)
unfolding sort_onto
sort_onto-Rising done [] r = r
sort_onto-Rising done (x ∷ xs) r = sort_onto-Rising (sink x done) xs (sink-Rising x done r)

sort_onto_perm : (done xs : List EtcdSnapshot) → Perm (sort_onto done xs) (done ++ xs)
unfolding sort_onto
sort_onto_perm done [] = rw (append-nil done) (Perm.refl done)
sort_onto_perm done (x ∷ xs) =
    Perm.trans (sort_onto_perm (sink x done) xs)
      (Perm.trans (Perm.append_right xs (sink_perm x done)) (Perm.symm (perm_middle done xs)))

-- The sorted slice falls, and has the same snapshots.
pub newest_first-Falling : (snaps : List EtcdSnapshot) → Falling (newest_first snaps)
unfolding newest_first
newest_first-Falling snaps =
    (Pairwise-reverse {R = λ (a b : EtcdSnapshot). b.taken_at ≤ a.taken_at} (λ a b. le_prop)
        {l = sort_onto [] snaps}).1
      (sort_onto-Rising [] snaps Pairwise.nil)

pub newest_first_perm : (snaps : List EtcdSnapshot) → Perm (newest_first snaps) snaps
unfolding newest_first
newest_first_perm snaps = Perm.trans (reverse_perm (sort_onto [] snaps)) (sort_onto_perm [] snaps)

length-sink : (x : EtcdSnapshot) (ys : List EtcdSnapshot) → length (sink x ys) ≡ suc (length ys)
unfolding sink
length-sink x [] = refl
length-sink x (y ∷ ys) = elim (Bool-cases (after x.taken_at y.taken_at)) [
  | inl newer ↦ rw newer (ap suc (length-sink x ys))
  | inr older ↦ rw older refl
]

length-sort_onto :
    (done xs : List EtcdSnapshot) → length (sort_onto done xs) ≡ length done + length xs
unfolding sort_onto
length-sort_onto done [] = omega arith
length-sort_onto done (x ∷ xs) =
    omega (arith, length-sort_onto (sink x done) xs, length-sink x done)

length-reverse_aux :
    (l acc : List EtcdSnapshot) → length (reverse_aux l acc) ≡ length l + length acc
length-reverse_aux [] acc = omega arith
length-reverse_aux (x ∷ l) acc = omega (arith, length-reverse_aux l (x ∷ acc))

pub length-newest_first : (snaps : List EtcdSnapshot) → length (newest_first snaps) ≡ length snaps
unfolding newest_first
length-newest_first snaps =
    omega (arith, length-reverse_aux (sort_onto [] snaps) [], length-sort_onto [] snaps)
