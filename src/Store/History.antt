-- ===== src/Store/History.antt =====
-- internal/store/store.go: what the completion sweep does to the operations of a cluster, and what
-- completing one operation does.
use kaa_s_demo.Go.Sort.{stable_sort, any-stable_sort}
use kaa_s_demo.Prelude.Dict.{get-put, get}
use kaa_s_demo.Go.Time.{after, Time}
use kaa_s_demo.Prelude.Any.{any}
use kaa_s_demo.Prelude.{
  leb, not, ◌&&◌, ap, ◌∙◌, Bool, text_eq_refl, text_eq_iff, Bool-cases, Option-cases, refl, map,
  arith, text_eq, ◌≡◌, if◌then◌else◌, List, ℕ, Text, [], ◌∷◌, inl, inr, true, false,
}
use kaa_s_demo.Store.Memory.{Memory}
use kaa_s_demo.Store.Log.{bucket, complete_operations, list_operations, is_swept, finish}
use kaa_s_demo.Domain.Operation.{is_in_progress, Operation, sweep_exempt}

abbrev sweep : ℕ → Time → Operation → Operation
sweep through at op = if is_swept through op then finish at op else op

-- a finished operation is not swept again
sweep_done :
    (through : ℕ) (at : Time) (op : Operation) → is_swept through (sweep through at op) ≡ false
unfolding is_swept finish
sweep_done through at op = ground arith

sweep_again :
    (through : ℕ) (at later : Time) (op : Operation)
    → sweep through later (sweep through at op) ≡ sweep through at op
sweep_again through at later op = simp (sweep_done through at op)

-- The list of a cluster after a sweep.
swept_bucket :
    (m : Memory) (cluster k : Text) (through : ℕ) (at : Time)
    → bucket (complete_operations m cluster through at).operations k ≡ (
        if text_eq cluster k
        then map (sweep through at) (bucket m.operations k)
        else bucket m.operations k)
unfolding complete_operations bucket
swept_bucket m cluster k through at = elim (Option-cases (get m.operations cluster)) [
  | inl e ↦ elim (Bool-cases (text_eq cluster k)) [
    | inl same ↦
        simp (bucket, complete_operations, e, ← (text_eq_iff cluster k).0 same, text_eq_refl)
    | inr other ↦ simp (bucket, complete_operations, e, other)
  ]
  | inr (ops, e) ↦ elim (Bool-cases (text_eq cluster k)) [
    | inl same ↦
        simp
          (bucket, complete_operations, e, get-put, ← (text_eq_iff cluster k).0 same, text_eq_refl)
    | inr other ↦ simp (bucket, complete_operations, e, get-put, other)
  ]
]

map-sweep_again :
    (through : ℕ) (at later : Time) (ops : List Operation)
    → map (sweep through later) (map (sweep through at) ops) ≡ map (sweep through at) ops
map-sweep_again through at later [] = refl
map-sweep_again through at later (op ∷ ops) =
    rw (sweep_again through at later op, map-sweep_again through at later ops) refl

any-sweep :
    (through : ℕ) (at : Time) (ops : List Operation)
    → any (is_swept through) (map (sweep through at) ops) ≡ false
unfolding any
any-sweep through at [] = refl
any-sweep through at (op ∷ ops) = rw (sweep_done through at op) (any-sweep through at ops)

-- the operations that complete themselves
pub exempt_of : List Operation → List Operation
exempt_of [] = []
exempt_of (op ∷ ops) = let rest = exempt_of ops in if sweep_exempt op.kind then op ∷ rest else rest

exempt-kept :
    (through : ℕ) (op : Operation) → sweep_exempt op.kind ≡ true → is_swept through op ≡ false
unfolding is_swept
exempt-kept through op h = ground arith

exempt_of-sweep :
    (through : ℕ) (at : Time) (ops : List Operation)
    → exempt_of (map (sweep through at) ops) ≡ exempt_of ops
unfolding exempt_of finish
exempt_of-sweep through at [] = refl
exempt_of-sweep through at (op ∷ ops) = elim (Bool-cases (sweep_exempt op.kind)) [
  | inl self ↦
      let kept : is_swept through op ≡ false = exempt-kept through op self in
      simp (kept, self, exempt_of, exempt_of-sweep through at ops)
  | inr other ↦ elim (Bool-cases (is_swept through op)) [
    | inl swept ↦ simp (swept, other, exempt_of, finish, exempt_of-sweep through at ops)
    | inr left ↦ simp (left, other, exempt_of, exempt_of-sweep through at ops)
  ]
]

-- After CompleteOperations, no operation of the cluster up to that generation is in progress unless
-- its kind is exempt, a second sweep with any instant changes no list, the operations of exempt kinds
-- are as before in every bucket, and the lists of other clusters are as before.
pub complete_operations-sweep :
    (m : Memory) (cluster : Text) (through : ℕ) (at later : Time)
    → (any
          (λ op.
            is_in_progress op.status && not (sweep_exempt op.kind) && leb op.generation through)
          (list_operations (complete_operations m cluster through at) cluster)
        ≡ false)
      × ((k : Text)
          → list_operations
              (complete_operations (complete_operations m cluster through at) cluster through later)
              k
            ≡ list_operations (complete_operations m cluster through at) k)
      × ((k : Text)
          → exempt_of (bucket (complete_operations m cluster through at).operations k)
            ≡ exempt_of (bucket m.operations k))
      × ((k : Text)
          → text_eq cluster k ≡ false
          → list_operations (complete_operations m cluster through at) k ≡ list_operations m k)
unfolding list_operations is_swept
complete_operations-sweep m cluster through at later = (
  any-stable_sort newer (is_swept through) (bucket m'.operations cluster)
      ∙ rw (swept_bucket m cluster cluster through at, text_eq_refl cluster)
          (any-sweep through at (bucket m.operations cluster)),
  λ k. ap (stable_sort newer) (swept_twice k),
  λ k. exempt_kept k,
  λ k other. rw (swept_bucket m cluster k through at, other) refl,
)
  where
    m' : Memory
    m' = complete_operations m cluster through at

    newer : Operation → Operation → Bool
    newer a b = after a.started_at b.started_at

    swept_twice :
        (k : Text)
        → bucket (complete_operations m' cluster through later).operations k
          ≡ bucket m'.operations k
    swept_twice k = elim (Bool-cases (text_eq cluster k)) [
      | inl same ↦
          rw (swept_bucket m' cluster k through later, swept_bucket m cluster k through at, same)
            (map-sweep_again through at later (bucket m.operations k))
      | inr other ↦ rw (swept_bucket m' cluster k through later, other) refl
    ]

    exempt_kept :
        (k : Text) → exempt_of (bucket m'.operations k) ≡ exempt_of (bucket m.operations k)
    exempt_kept k = elim (Bool-cases (text_eq cluster k)) [
      | inl same ↦
          rw (swept_bucket m cluster k through at, same)
            (exempt_of-sweep through at (bucket m.operations k))
      | inr other ↦ rw (swept_bucket m cluster k through at, other) refl
    ]
