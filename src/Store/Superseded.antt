-- ===== src/Store/Superseded.antt =====
-- internal/store/store.go: UpdateClusterUnlessSuperseded against the other writes.
use mathlib.Core.Path.{subst}
use kaa_s_demo.Go.Time.{Time}
use kaa_s_demo.Prelude.Any.{All}
use kaa_s_demo.Prelude.Keys.{is_some}
use kaa_s_demo.Store.Table.{update_row, some_row, create_row}
use kaa_s_demo.Prelude.Dict.{get-put, get}
use kaa_s_demo.Domain.Cluster.{Cluster}
use kaa_s_demo.Prelude.{
  some_inj, ◌&&◌, Option-cases, not, ℕ, sym, ap, Text, ◌∙◌, Bool-cases, text_eq_iff, arith, ◌==◌,
  ◌⊎◌, ◌≡◌, text_eq, List, [], ◌∷◌, some, inl, inr, true, false,
}
use kaa_s_demo.Store.Requests.{Request, serve}
use kaa_s_demo.Store.Memory.{
  Memory, no_clash, create_cluster, update_cluster, update_cluster_unless_superseded, create_user,
  update_user, delete_user, create_group, update_group, delete_group, create_custom_catalog,
  update_custom_catalog, delete_custom_catalog, get_cluster,
}
use kaa_s_demo.Store.Log.{
  complete_in, save_secret, record_operation, save_metrics, save_health, save_etcd_snapshot,
  delete_etcd_snapshot, complete_operations, complete_operation,
}

-- a sequence of requests, each served after the one before
unfoldable pub serve_all : Memory → List Request → Memory
serve_all m [] = m
serve_all m (r ∷ rs) = serve_all (serve m r) rs

-- A request that is no update of the cluster by the API, and no write of a reconciler that has
-- read it at the generation that is stored.
abbrev pub LeavesAlone : Cluster → Request → Type 0
LeavesAlone c (Request.updates_cluster w) = text_eq w.id c.id ≡ false
LeavesAlone c (Request.updates_unless_superseded w) =
    (text_eq w.id c.id ≡ false) ⊎ ((c.generation == w.generation) ≡ false)
LeavesAlone c _ = Unit

module _ (m : Memory) (c : Cluster) (stored : get m.clusters c.id ≡ some c) where
  created-get : (w : Cluster) → get (create_cluster m w).0.clusters c.id ≡ some c
  unfolding create_cluster create_row
  created-get w = elim (Bool-cases (is_some (get m.clusters w.id))) [
    | inl old ↦ simp (create_row, old, stored)
    | inr new ↦ elim (Bool-cases (some_row (λ k v. no_clash v w) m.clusters)) [
      | inl clashes ↦ simp (create_row, new, clashes, stored)
      | inr free ↦ simp (create_row, new, free) (get-put m.clusters w.id c.id w ∙ rw other stored)
    ]
  ]
    where
      other : is_some (get m.clusters w.id) ≡ false → text_eq w.id c.id ≡ false
      other new = ground (arith, text_eq_iff w.id c.id)

  updated-get :
      (w : Cluster) → text_eq w.id c.id ≡ false → get (update_cluster m w).0.clusters c.id ≡ some c
  unfolding update_cluster update_row
  updated-get w other = elim (Bool-cases (is_some (get m.clusters w.id))) [
    | inr missing ↦ simp (update_row, missing, stored)
    | inl old ↦
        let test = λ (k : Text) (v : Cluster). not (text_eq k w.id) && no_clash v w in
        elim (Bool-cases (some_row test m.clusters)) [
          | inl clashes ↦ simp (update_row, old, clashes, stored)
          | inr free ↦
              simp (update_row, old, free) (get-put m.clusters w.id c.id w ∙ rw other stored)
        ]
  ]

  superseded-get :
      (w : Cluster)
      → (text_eq w.id c.id ≡ false) ⊎ ((c.generation == w.generation) ≡ false)
      → get (update_cluster_unless_superseded m w).0.clusters c.id ≡ some c
  unfolding update_cluster_unless_superseded
  superseded-get w h = elim (Option-cases (get m.clusters w.id)) [
    | inl missing ↦ rw (update_cluster_unless_superseded, missing) stored
    | inr (old, found) ↦ elim (Bool-cases (old.generation == w.generation)) [
      | inr newer ↦ rw (update_cluster_unless_superseded, found, newer) stored
      | inl same ↦
          rw (update_cluster_unless_superseded, found, same)
            (get-put m.clusters w.id c.id w ∙ rw (other old found same h) stored)
    ]
  ]
    where
      other :
          (old : Cluster)
          → get m.clusters w.id ≡ some old
          → (old.generation == w.generation) ≡ true
          → (text_eq w.id c.id ≡ false) ⊎ ((c.generation == w.generation) ≡ false)
          → text_eq w.id c.id ≡ false
      other old found same (inl apart) = apart
      other old found same (inr newer) = elim (Bool-cases (text_eq w.id c.id)) [
        | inr apart ↦ apart
        | inl alike ↦
            let key : get m.clusters w.id ≡ get m.clusters c.id =
              ap (get m.clusters) ((text_eq_iff w.id c.id).0 alike) in
            let one : some old ≡ some c = sym found ∙ key ∙ stored in
            let agree : (c.generation == w.generation) ≡ true =
              subst (λ (x : Cluster). (x.generation == w.generation) ≡ true) (some_inj one) same in
            cc
      ]

  swept-get :
      (cluster : Text) (through : ℕ) (at : Time)
      → get (complete_operations m cluster through at).clusters c.id ≡ some c
  unfolding complete_operations
  swept-get cluster through at = elim (Option-cases (get m.operations cluster)) [
    | inl e ↦ rw (complete_operations, e) stored
    | inr (ops, e) ↦ rw (complete_operations, e) stored
  ]

  completed-get :
      (id detail : Text) (at : Time)
      → get (complete_operation m id detail at).0.clusters c.id ≡ some c
  unfolding complete_operation
  completed-get id detail at = elim (Option-cases (complete_in id detail at m.operations.entries)) [
    | inl e ↦ rw (complete_operation, e) stored
    | inr (l, e) ↦ rw (complete_operation, e) stored
  ]

  serve-get : (r : Request) → LeavesAlone c r → get (serve m r).clusters c.id ≡ some c
  unfolding serve create_user update_user delete_user create_group update_group delete_group
      create_custom_catalog update_custom_catalog delete_custom_catalog save_secret record_operation
      save_metrics save_health save_etcd_snapshot delete_etcd_snapshot
  serve-get (Request.creates_cluster w) h = created-get w
  serve-get (Request.updates_cluster w) h = updated-get w h
  serve-get (Request.updates_unless_superseded w) h = superseded-get w h
  serve-get (Request.completes_operations k through at) h = swept-get k through at
  serve-get (Request.completes_operation id detail at) h = completed-get id detail at
  serve-get _ h = stored

-- A stored cluster reads the same after any sequence of writes, if no UpdateCluster of its id is
-- among them and each UpdateClusterUnlessSuperseded of its id carries another generation.
pub serve_all-get_cluster :
    (m : Memory) (c : Cluster) (rs : List Request)
    → get_cluster m c.id ≡ some c
    → All (LeavesAlone c) rs
    → get_cluster (serve_all m rs) c.id ≡ some c
unfolding get_cluster serve_all
serve_all-get_cluster m c [] stored h = stored
serve_all-get_cluster m c (r ∷ rs) stored h =
    serve_all-get_cluster (serve m r) c rs (serve-get m c stored r h.0) h.1
