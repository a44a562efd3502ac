-- ===== src/Examples/Access.antt =====
-- The access to clusters at concrete inputs.
use kaa_s_demo.Prelude.Any.{any}
use kaa_s_demo.Domain.Cluster.{Cluster}
use kaa_s_demo.Prelude.Dict.{get}
use kaa_s_demo.Prelude.Keys.{has}
use kaa_s_demo.Prelude.{◌&&◌, text_eq, refl, codes, Text, ◌≡◌, List, [], ◌∷◌, some}
use kaa_s_demo.Store.Memory.{get_user}
use kaa_s_demo.Store.Table.{rows_where}
use kaa_s_demo.App.Access.{visible_clusters, access_to, is_visible, is_full}
use kaa_s_demo.App.Access.Listing.{visible_clusters-access_to}
use kaa_s_demo.Vault.Access.{policies_for_user, policy_read, policy_write}
use kaa_s_demo.Vault.Access.Mirror.{policies_for_user-access_to, is_view}
use kaa_s_demo.Examples.Store.{alice, two_users, Reached-two}
use kaa_s_demo.Examples.Samples.{cluster}

visible_clusters-access_to_example :
    visible_clusters two_users (some alice)
    ≡ some (rows_where (λ c. is_visible (access_to two_users (some alice) c)) two_users.clusters)
visible_clusters-access_to_example = visible_clusters-access_to Reached-two alice

owners_stored : (id : Text) → get two_users.users id ≡ get_user two_users id
unfolding get_user
owners_stored id = refl

-- a cluster of her own, and one of an account that is gone
abbrev clusters : List Cluster
clusters = record cluster { owner_id = codes "1"; id = codes "9" } ∷ cluster ∷ []

policies_for_user-access_to_example :
    (has (policies_for_user (some alice) clusters two_users.users) (policy_write (codes "9"))
      ≡ any
          (λ c. text_eq c.id (codes "9") && is_full (access_to two_users (some alice) c))
          clusters)
    × (has (policies_for_user (some alice) clusters two_users.users) (policy_read (codes "9"))
        ≡ any
            (λ c. text_eq c.id (codes "9") && is_view (access_to two_users (some alice) c))
            clusters)
policies_for_user-access_to_example =
    policies_for_user-access_to two_users alice two_users.users clusters refl owners_stored
      (codes "9")
