-- ===== src/Store/Sound/Log.antt =====
-- internal/store/store.go: the lists of operations and snapshots stay filed under their clusters.
use kaa_s_demo.Prelude.{[], ◌∷◌}
use mathlib.Core.Path.{subst}
use kaa_s_demo.Prelude.Any.{All-map, All}
use kaa_s_demo.Prelude.Dict.{put, Dict, get}
use kaa_s_demo.Domain.Operation.{Operation}
use kaa_s_demo.Etcd.Snapshot.{EtcdSnapshot}
use kaa_s_demo.Go.Time.{Time}
use kaa_s_demo.Prelude.{
  none, some_inj, ◌∙◌, text_eq, sym, ◌∷◌, map, refl, Bool-cases, arith, inr, some, inl,
  if◌then◌else◌, ◌≡◌, Option-cases, List, ℕ, Text,
}
use kaa_s_demo.Store.Sound.{IsFiled, operation_cluster, snapshot_cluster, put-All, get-All}
use kaa_s_demo.Store.Log.{
  is_swept, finish, finish_with, complete_first, complete_in, drop_first, drop_in,
}

-- Finishing an operation leaves its cluster alone.
finish_with-cluster :
    (detail : Text) (at : Time) (op : Operation)
    → (finish_with detail at op).cluster_id ≡ op.cluster_id
unfolding finish_with finish
finish_with-cluster detail at op = ground arith

swept-cluster :
    (through : ℕ) (at : Time) (op : Operation)
    → (if is_swept through op then finish at op else op).cluster_id ≡ op.cluster_id
unfolding finish
swept-cluster through at op = elim (Bool-cases (is_swept through op)) [
  | inl swept ↦ rw swept refl
  | inr left ↦ rw left refl
]

-- what the sweep of a cluster's operations leaves
pub swept-IsFiled :
    (d : Dict (List Operation)) (cluster : Text) (through : ℕ) (at : Time) (ops : List Operation)
    → IsFiled operation_cluster d.entries
    → get d cluster ≡ some ops
    → IsFiled operation_cluster
        (put d cluster (map (λ op. if is_swept through op then finish at op else op) ops)).entries
swept-IsFiled d cluster through at ops h e =
    put-All (λ e. All (λ op. operation_cluster op ≡ e.0) e.1) d cluster
      (map (λ op. if is_swept through op then finish at op else op) ops)
      (All-map (λ op. operation_cluster op ≡ cluster) (λ op. operation_cluster op ≡ cluster)
        (λ op. if is_swept through op then finish at op else op)
        (λ op own. swept-cluster through at op ∙ own) ops
        (get-All (λ e. All (λ op. operation_cluster op ≡ e.0) e.1) d cluster ops h e))
      h

-- A loop that changes the first item it accepts, in a list or in a map of lists.
complete_first-All :
    (k id detail : Text) (at : Time) (ops ops' : List Operation)
    → complete_first id detail at ops ≡ some ops'
    → All (λ op. operation_cluster op ≡ k) ops
    → All (λ op. operation_cluster op ≡ k) ops'
unfolding complete_first
complete_first-All k id detail at [] ops' e h = cc
complete_first-All k id detail at (op ∷ ops) ops' e h = elim (Bool-cases (text_eq op.id id)) [
  | inl same ↦
      let done : some (finish_with detail at op ∷ ops) ≡ some ops' = sym (rw same refl) ∙ e in
      subst (All (λ op. operation_cluster op ≡ k)) (some_inj done)
        (finish_with-cluster detail at op ∙ h.0, h.1)
  | inr other ↦ elim (Option-cases (complete_first id detail at ops)) [
    | inl missing ↦ let none_ : none ≡ some ops' = sym (rw (other, missing) refl) ∙ e in cc
    | inr (rest, found) ↦
        let done : some (op ∷ rest) ≡ some ops' = sym (rw (other, found) refl) ∙ e in
        subst (All (λ op. operation_cluster op ≡ k)) (some_inj done)
          (h.0, complete_first-All k id detail at ops rest found h.1)
  ]
]

pub complete_in-IsFiled :
    (id detail : Text) (at : Time) (l l' : List (Text × List Operation))
    → complete_in id detail at l ≡ some l'
    → IsFiled operation_cluster l
    → IsFiled operation_cluster l'
unfolding complete_in
complete_in-IsFiled id detail at [] l' e h = cc
complete_in-IsFiled id detail at ((k, ops) ∷ l) l' e h =
    elim (Option-cases (complete_first id detail at ops)) [
      | inr (ops', found) ↦
          let done : some ((k, ops') ∷ l) ≡ some l' = sym (simp (complete_in, found)) ∙ e in
          subst (IsFiled operation_cluster) (some_inj done)
            (complete_first-All k id detail at ops ops' found h.0, h.1)
      | inl missing ↦ elim (Option-cases (complete_in id detail at l)) [
        | inl missing' ↦
            let none_ : none ≡ some l' = sym (simp (complete_in, missing, missing')) ∙ e in cc
        | inr (rest, found) ↦
            let done : some ((k, ops) ∷ rest) ≡ some l' =
              sym (simp (complete_in, missing, found)) ∙ e in
            subst (IsFiled operation_cluster) (some_inj done)
              (h.0, complete_in-IsFiled id detail at l rest found h.1)
      ]
    ]

drop_first-All :
    (k id : Text) (ss ss' : List EtcdSnapshot)
    → drop_first id ss ≡ some ss'
    → All (λ s. snapshot_cluster s ≡ k) ss
    → All (λ s. snapshot_cluster s ≡ k) ss'
unfolding drop_first
drop_first-All k id [] ss' e h = cc
drop_first-All k id (s ∷ ss) ss' e h = elim (Bool-cases (text_eq s.id id)) [
  | inl same ↦
      let done : some ss ≡ some ss' = sym (rw same refl) ∙ e in
      subst (All (λ s. snapshot_cluster s ≡ k)) (some_inj done) h.1
  | inr other ↦ elim (Option-cases (drop_first id ss)) [
    | inl missing ↦ let none_ : none ≡ some ss' = sym (rw (other, missing) refl) ∙ e in cc
    | inr (rest, found) ↦
        let done : some (s ∷ rest) ≡ some ss' = sym (rw (other, found) refl) ∙ e in
        subst (All (λ s. snapshot_cluster s ≡ k)) (some_inj done)
          (h.0, drop_first-All k id ss rest found h.1)
  ]
]

pub drop_in-IsFiled :
    (id : Text) (l : List (Text × List EtcdSnapshot))
    → IsFiled snapshot_cluster l
    → IsFiled snapshot_cluster (drop_in id l)
unfolding drop_in
drop_in-IsFiled id [] h = tt
drop_in-IsFiled id ((k, ss) ∷ l) h = elim (Option-cases (drop_first id ss)) [
  | inr (ss', found) ↦ rw (drop_in, found) (drop_first-All k id ss ss' found h.0, h.1)
  | inl missing ↦ rw (drop_in, missing) (h.0, drop_in-IsFiled id l h.1)
]
