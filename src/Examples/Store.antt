-- ===== src/Examples/Store.antt =====
-- The in-memory store at concrete inputs.
use kaa_s_demo.Prelude.Dict.{lookup, put, get, empty, replace}
use kaa_s_demo.Prelude.Any.{any}
use kaa_s_demo.Domain.User.{User}
use kaa_s_demo.Prelude.{
  leb, not, ◌&&◌, ◌++◌, text_eq, if◌then◌else◌, refl, ℕ, ◌≡◌, Text, codes, [], ◌∷◌, none, some,
  false, inr,
}
use kaa_s_demo.Store.Table.{some_row, create_row, StoreError}
use kaa_s_demo.Store.Memory.{Memory, new_memory, create_user, create_cluster, get_cluster}
use kaa_s_demo.Store.Requests.{Request, serve, Reached}
use kaa_s_demo.Store.Sound.{IsSound}
use kaa_s_demo.Store.Sound.Runs.{Reached-IsSound}
use kaa_s_demo.Store.Superseded.{serve_all, serve_all-get_cluster}
use kaa_s_demo.Store.Secrets.{get_secret-save_secret}
use kaa_s_demo.Store.History.{complete_operations-sweep, exempt_of}
use kaa_s_demo.Store.Session.{complete_operation-record_operation, holds}
use kaa_s_demo.Store.Log.{
  complete_operations, complete_operation, record_operation, list_operations, bucket, save_secret,
  get_secret,
}
use kaa_s_demo.Domain.Operation.{
  sweep_exempt, is_in_progress, completed, Operation, OperationKind, OperationStatus,
}
use kaa_s_demo.Domain.Phase.{SecretKind, Phase}
use kaa_s_demo.Examples.Samples.{cluster}

abbrev pub user : Text → Text → User
user id username = record {
  id = id;
  username = username;
  password_hash = [];
  auth_source = codes "local";
  display_name = [];
  email = [];
  is_admin = false;
  quotas = empty;
  memberships = [];
  created_at = 1;
}

abbrev pub alice : User
alice = user (codes "1") (codes "alice")

abbrev pub bob : User
bob = user (codes "2") (codes "bob")

abbrev pub two_users : Memory
two_users = serve (serve new_memory (Request.creates_user alice)) (Request.creates_user bob)

pub Reached-two : Reached two_users
Reached-two =
    Reached.next (Reached.next (Reached.start new_memory refl) (Request.creates_user alice) refl)
      (Request.creates_user bob) refl

-- a third account with bob's username is refused
bob_again : (create_user two_users (user (codes "3") (codes "bob"))).1 ≡ some StoreError.conflict
unfolding create_user create_row serve new_memory empty get put lookup replace text_eq some_row any
bob_again = refl

Reached-IsSound_example : IsSound two_users
Reached-IsSound_example = Reached-IsSound Reached-two

abbrev one_cluster : Memory
one_cluster = (create_cluster new_memory cluster).0

cluster_stored : get_cluster one_cluster (codes "1") ≡ some cluster
unfolding create_cluster create_row new_memory empty get put lookup replace text_eq some_row any
    get_cluster
cluster_stored = refl

-- a write of a reconciler that has read generation 2, when 3 is stored
abbrev stale : Request
stale = Request.updates_unless_superseded (record cluster { generation = 2; phase = Phase.failed })

serve_all-get_cluster_example :
    get_cluster (serve_all one_cluster (stale ∷ Request.deletes_user (codes "1") ∷ [])) (codes "1")
    ≡ some cluster
serve_all-get_cluster_example =
    serve_all-get_cluster one_cluster cluster (stale ∷ Request.deletes_user (codes "1") ∷ [])
      cluster_stored (inr refl, (tt, tt))

get_secret-save_secret_example :
    (get_secret
        (save_secret one_cluster (codes "1") SecretKind.kubeconfig (codes "k"))
        (codes "1")
        SecretKind.kubeconfig
      ≡ some (codes "k"))
    × ((¬ ((codes "1" ≡ codes "1") × (SecretKind.kubeconfig ≡ SecretKind.kubeconfig_viewer)))
        → get_secret
            (save_secret one_cluster (codes "1") SecretKind.kubeconfig (codes "k"))
            (codes "1")
            SecretKind.kubeconfig_viewer
          ≡ get_secret one_cluster (codes "1") SecretKind.kubeconfig_viewer)
get_secret-save_secret_example =
    get_secret-save_secret one_cluster (codes "1") (codes "1") SecretKind.kubeconfig
      SecretKind.kubeconfig_viewer (codes "k")

abbrev operation : Text → OperationKind → ℕ → Operation
operation id kind generation = record {
  id = id;
  cluster_id = codes "1";
  kind = kind;
  summary = [];
  detail = [];
  generation = generation;
  status = OperationStatus.in_progress;
  actor_id = [];
  actor_username = [];
  started_at = 5;
  finished_at = none;
}

abbrev scaled : Operation
scaled = operation (codes "a") OperationKind.scale 3

abbrev session : Operation
session = operation (codes "b") OperationKind.ssh 0

abbrev busy : Memory
busy = record_operation (record_operation one_cluster scaled) session

complete_operations-sweep_example :
    (any
        (λ op. is_in_progress op.status && not (sweep_exempt op.kind) && leb op.generation 3)
        (list_operations (complete_operations busy (codes "1") 3 7) (codes "1"))
      ≡ false)
    × ((k : Text)
        → list_operations
            (complete_operations (complete_operations busy (codes "1") 3 7) (codes "1") 3 9)
            k
          ≡ list_operations (complete_operations busy (codes "1") 3 7) k)
    × ((k : Text)
        → exempt_of (bucket (complete_operations busy (codes "1") 3 7).operations k)
          ≡ exempt_of (bucket busy.operations k))
    × ((k : Text)
        → text_eq (codes "1") k ≡ false
        → list_operations (complete_operations busy (codes "1") 3 7) k ≡ list_operations busy k)
complete_operations-sweep_example = complete_operations-sweep busy (codes "1") 3 7 9

no_session : holds (codes "b") (record_operation one_cluster scaled).operations.entries ≡ false
unfolding record_operation create_cluster create_row new_memory empty get put lookup replace text_eq
    some_row any get_cluster holds bucket
no_session = refl

complete_operation-record_operation_example :
    ((complete_operation busy (codes "b") (codes "ls") 9).1 ≡ none)
    × ((k : Text)
        → bucket (complete_operation busy (codes "b") (codes "ls") 9).0.operations k ≡ (
            if text_eq (codes "1") k
            then bucket (record_operation one_cluster scaled).operations k
              ++ record session { status = completed; finished_at = some 9; detail = codes "ls" }
                ∷ []
            else bucket (record_operation one_cluster scaled).operations k))
unfolding text_eq
complete_operation-record_operation_example =
    complete_operation-record_operation (record_operation one_cluster scaled) session (codes "ls") 9
      no_session
