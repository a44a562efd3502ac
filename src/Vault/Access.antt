-- ===== src/Vault/Access.antt =====
-- internal/vault/vault.go: the names of policies, and those that an account's token carries.
pub mod Mirror
use kaa_s_demo.Prelude.{
  ◌++◌, text_eq, not, if◌then◌else◌, codes, List, Text, Option, [], ◌∷◌, none, some, true, false,
  inl, inr,
}
use kaa_s_demo.Prelude.Keys.{has}
use kaa_s_demo.Prelude.Dict.{Dict, get}
use kaa_s_demo.Domain.User.{User, GroupMembership, in_group}
use kaa_s_demo.Domain.Cluster.{Cluster}
use kaa_s_demo.Domain.Disks.{text_less}
use kaa_s_demo.Domain.Group.{role_read, role_write}
use kaa_s_demo.Go.Sort.{stable_sort}

unfoldable pub policy_read : Text → Text
policy_read cluster = codes "kaas-cluster-" ++ (cluster ++ codes "-read")

unfoldable pub policy_write : Text → Text
policy_write cluster = codes "kaas-cluster-" ++ (cluster ++ codes "-write")

abbrev pub policy_admin : Text
policy_admin = codes "kaas-admin"

-- set[k] = true
unfoldable pub with_key : List Text → Text → List Text
with_key set k = if has set k then set else k ∷ set

unfoldable pub sorted_keys : List Text → List Text
sorted_keys set = stable_sort text_less set

-- the loop over memberships: write in a shared group ends it
unfoldable pub best_role : User → Text → List GroupMembership → Text
best_role owner best [] = best
best_role owner best (m ∷ ms) =
    let rest = best_role owner best ms in
    let seen = best_role owner role_read ms in
    if not (in_group owner m.group_id)
    then rest
    else if text_eq m.role role_write
    then role_write
    else seen

unfoldable pub role_policy : Text → Text → Option Text
role_policy cluster role =
    if text_eq role role_write
    then some (policy_write cluster)
    else if text_eq role role_read
    then some (policy_read cluster)
    else none

-- what one cluster adds to the policies
unfoldable pub cluster_policy : User → Dict User → Cluster → Option Text
cluster_policy actor owners c =
    if text_eq c.owner_id actor.id then some (policy_write c.id) else elim (get owners c.owner_id) [
      | none ↦ none
      | some owner ↦ role_policy c.id (best_role owner [] actor.memberships)
    ]

abbrev pub added : List Text → Option Text → List Text
added set none = set
added set (some k) = with_key set k

unfoldable pub policies_onto : User → Dict User → List Text → List Cluster → List Text
policies_onto actor owners set [] = set
policies_onto actor owners set (c ∷ cs) =
    policies_onto actor owners (added set (cluster_policy actor owners c)) cs

unfoldable pub policies_for_user : Option User → List Cluster → Dict User → List Text
policies_for_user none clusters owners = []
policies_for_user (some actor) clusters owners =
    if actor.is_admin
    then policy_admin ∷ []
    else sorted_keys (policies_onto actor owners [] clusters)
