-- ===== src/Store/Session.antt =====
-- internal/store/store.go: an operation that is recorded, and then completed by its id.
use mathlib.Core.Path.{subst}
use kaa_s_demo.Go.Time.{Time}
use kaa_s_demo.Domain.Operation.{completed, Operation}
use kaa_s_demo.Prelude.Any.{any}
use kaa_s_demo.Prelude.{
  text_eq_iff, Option-cases, some_inj, ◌∙◌, refl, arith, sym, text_eq_refl, if◌then◌else◌,
  Bool-cases, text_eq, ◌++◌, ◌≡◌, Bool, List, Text, [], ◌∷◌, none, some, inl, inr, false,
}
use kaa_s_demo.Prelude.Dict.{get-put_self, get-put, lookup, replace, get, put, Dict}
use kaa_s_demo.Store.Memory.{Memory}
use kaa_s_demo.Store.Log.{
  finish, bucket, complete_operation, record_operation, finish_with, complete_in, complete_first,
}

-- the id is that of no operation in the list, in the map
abbrev lists : Text → List Operation → Bool
lists id ops = any (λ op. text_eq op.id id) ops

unfoldable pub holds : Text → List (Text × List Operation) → Bool
holds id l = any (λ e. lists id e.1) l

module _ (id detail : Text) (at : Time) (k : Text) (ops : List Operation) where
  complete_in-here :
      (ops' : List Operation) (l : List (Text × List Operation))
      → complete_first id detail at ops ≡ some ops'
      → complete_in id detail at ((k, ops) ∷ l) ≡ some ((k, ops') ∷ l)
  unfolding complete_in
  complete_in-here ops' l e = simp (complete_in, e)

  complete_in-later :
      (l l' : List (Text × List Operation))
      → complete_first id detail at ops ≡ none
      → complete_in id detail at l ≡ some l'
      → complete_in id detail at ((k, ops) ∷ l) ≡ some ((k, ops) ∷ l')
  unfolding complete_in
  complete_in-later l l' e f = simp (complete_in, e, f)

module _ (op : Operation) (detail : Text) (at : Time) where
  complete_first-miss :
      (ops : List Operation) → lists op.id ops ≡ false → complete_first op.id detail at ops ≡ none
  unfolding complete_first any
  complete_first-miss [] h = refl
  complete_first-miss (o ∷ ops) h =
      let other : text_eq o.id op.id ≡ false = ground arith in
      rw (other, complete_first-miss ops (ground arith)) refl

  complete_first-last :
      (ops : List Operation)
      → lists op.id ops ≡ false
      → complete_first op.id detail at (ops ++ op ∷ [])
        ≡ some (ops ++ finish_with detail at op ∷ [])
  unfolding complete_first any
  complete_first-last [] h = rw (text_eq_refl op.id) refl
  complete_first-last (o ∷ ops) h =
      let other : text_eq o.id op.id ≡ false = ground arith in
      rw (other, complete_first-last ops (ground arith)) refl

  complete_in-replace :
      (k : Text) (ops : List Operation) (l : List (Text × List Operation))
      → lists op.id ops ≡ false
      → holds op.id l ≡ false
      → complete_in op.id detail at (replace k (ops ++ op ∷ []) l)
        ≡ some (replace k (ops ++ finish_with detail at op ∷ []) l)
  unfolding replace holds any
  complete_in-replace k ops [] fresh h =
      complete_in-here op.id detail at k (ops ++ op ∷ []) (ops ++ finish_with detail at op ∷ []) []
        (complete_first-last ops fresh)
  complete_in-replace k ops ((j, old) ∷ l) fresh h = elim (Bool-cases (text_eq j k)) [
    | inl same ↦
        rw (same, replace)
          (complete_in-here op.id detail at k (ops ++ op ∷ [])
            (ops ++ finish_with detail at op ∷ []) l (complete_first-last ops fresh))
    | inr other ↦
        rw (other, replace)
          (complete_in-later op.id detail at j old (replace k (ops ++ op ∷ []) l)
            (replace k (ops ++ finish_with detail at op ∷ []) l)
            (complete_first-miss old (ground arith))
            (complete_in-replace k ops l fresh (ground arith)))
  ]

lookup-lists :
    (id k : Text) (ops : List Operation) (l : List (Text × List Operation))
    → holds id l ≡ false
    → lookup k l ≡ some ops
    → lists id ops ≡ false
unfolding lookup holds any
lookup-lists id k ops [] h e = cc
lookup-lists id k ops ((j, old) ∷ l) h e = elim (Bool-cases (text_eq j k)) [
  | inl same ↦
      let found : some old ≡ some ops = sym (rw same refl) ∙ e in
      subst (λ (x : List Operation). lists id x ≡ false) (some_inj found) (ground arith)
  | inr other ↦ lookup-lists id k ops l (ground arith) (sym (rw other refl) ∙ e)
]

bucket-lists :
    (id k : Text) (d : Dict (List Operation))
    → holds id d.entries ≡ false
    → lists id (bucket d k) ≡ false
unfolding bucket get
bucket-lists id k d h = elim (Option-cases (get d k)) [
  | inl e ↦ simp (bucket, e) (unfold any in refl)
  | inr (ops, e) ↦ simp (bucket, e) (lookup-lists id k ops d.entries h (unfold get in e))
]

bucket_found :
    (d : Dict (List Operation)) (k : Text) (ops : List Operation) → bucket (put d k ops) k ≡ ops
unfolding bucket
bucket_found d k ops = let e = get-put_self d k ops in simp (bucket, e)

bucket_other :
    (d : Dict (List Operation)) (k j : Text) (ops : List Operation)
    → text_eq k j ≡ false
    → bucket (put d k ops) j ≡ bucket d j
unfolding bucket
bucket_other d k j ops other =
    let e : get (put d k ops) j ≡ get d j = rw (get-put, other) refl in simp (bucket, e)

bucket-append :
    (d : Dict (List Operation)) (k j : Text) (op : Operation)
    → bucket (put d k (bucket d k ++ op ∷ [])) j
      ≡ (if text_eq k j then bucket d j ++ op ∷ [] else bucket d j)
bucket-append d k j op = elim (Bool-cases (text_eq k j)) [
  | inl same ↦
      let key = (text_eq_iff k j).0 same in
      rw (← key, text_eq_refl k) (bucket_found d k (bucket d k ++ op ∷ []))
  | inr other ↦ rw other (bucket_other d k j (bucket d k ++ op ∷ []) other)
]

finish_with_lem :
    (op : Operation) (detail : Text) (at : Time)
    → finish_with detail at op ≡ record op {
      status = completed;
      finished_at = some at;
      detail = if text_eq detail [] then op.detail else detail;
    }
unfolding finish_with finish
finish_with_lem op detail at = elim (Bool-cases (text_eq detail [])) [
  | inl e ↦ rw e refl
  | inr e ↦ rw e refl
]

-- If no operation of the store has the id, recording an operation and then completing it by its id
-- succeeds. At the end of its cluster's bucket is then the operation with its status completed, its
-- finish time that of the completion, its detail the one given, or its own if the one given is
-- empty, and all else as recorded; every other bucket is as it was.
pub complete_operation-record_operation :
    (m : Memory) (op : Operation) (detail : Text) (at : Time)
    → holds op.id m.operations.entries ≡ false
    → ((complete_operation (record_operation m op) op.id detail at).1 ≡ none)
      × ((k : Text)
          → bucket (complete_operation (record_operation m op) op.id detail at).0.operations k ≡ (
              if text_eq op.cluster_id k
              then bucket m.operations k
                ++ record op {
                  status = completed;
                  finished_at = some at;
                  detail = if text_eq detail [] then op.detail else detail;
                }
                  ∷ []
              else bucket m.operations k))
unfolding complete_operation record_operation put
complete_operation-record_operation m op detail at h =
    simp (complete_operation, done)
      (
        refl,
        λ k.
            bucket-append m.operations op.cluster_id k (finish_with detail at op)
            ∙ rw finish_with_lem refl,
      )
  where
    old : List Operation
    old = bucket m.operations op.cluster_id

    done :
        complete_in op.id detail at (replace op.cluster_id (old ++ op ∷ []) m.operations.entries)
        ≡ some (replace op.cluster_id (old ++ finish_with detail at op ∷ []) m.operations.entries)
    done =
        complete_in-replace op detail at op.cluster_id old m.operations.entries
          (bucket-lists op.id op.cluster_id m.operations h) h
