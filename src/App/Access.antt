-- ===== src/App/Access.antt =====
-- internal/app/app.go: the access of an account to a cluster, and the calls that enforce it. A store
-- that fails answers as one that finds nothing.
pub mod Listing
use kaa_s_demo.Prelude.Keys.{has}
use kaa_s_demo.Prelude.Any.{any}
use kaa_s_demo.Prelude.{
  ◌==◌, length, map, ◌&&◌, text_eq, ◌||◌, not, if◌then◌else◌, Text, Bool, Option, List, [], ◌∷◌,
  none, some, true, false, inl, inr,
}
use kaa_s_demo.Domain.User.{User, GroupMembership, in_group}
use kaa_s_demo.Domain.Cluster.{Cluster}
use kaa_s_demo.Domain.Group.{role_write}
use kaa_s_demo.Store.Table.{rows_where}
use kaa_s_demo.Store.Memory.{user_id, Memory, get_user, get_cluster, list_users, list_clusters}

pub data ClusterAccess : Type 0 where
  invisible view full : ClusterAccess

abbrev pub is_full : ClusterAccess → Bool
is_full full = true
is_full _ = false

abbrev pub is_visible : ClusterAccess → Bool
is_visible invisible = false
is_visible _ = true

-- the loop of accessTo: write in a group that the owner is in ends it
unfoldable pub best_access : User → ClusterAccess → List GroupMembership → ClusterAccess
best_access owner best [] = best
best_access owner best (m ∷ ms) =
    let rest = best_access owner best ms in
    let seen = best_access owner view ms in
    if not (in_group owner m.group_id)
    then rest
    else if text_eq m.role role_write
    then full
    else seen

abbrev pub access_through : User → Option User → ClusterAccess
access_through actor none = invisible
access_through actor (some owner) = best_access owner invisible actor.memberships

-- accessTo: no actor has no access
unfoldable pub access_to : Memory → Option User → Cluster → ClusterAccess
access_to m none c = invisible
access_to m (some actor) c =
    if actor.is_admin || text_eq c.owner_id actor.id
    then full
    else access_through actor (get_user m c.owner_id)

unfoldable pub can_manage_cluster : Memory → Option User → Cluster → Bool
can_manage_cluster m actor c = is_full (access_to m actor c)

pub data AccessError : Type 0 where
  not_found forbidden : AccessError

pub data Authorized : Type 0 where
  granted : Cluster → Authorized
  refused : AccessError → Authorized

-- a cluster that the account cannot see is not found
unfoldable pub authorize_cluster : Memory → Option User → Text → Authorized
authorize_cluster m actor id = elim (get_cluster m id) [
  | none ↦ refused not_found
  | some c ↦ if is_visible (access_to m actor c) then granted c else refused not_found
]

abbrev pub allowed : ClusterAccess → Cluster → Authorized
allowed full c = granted c
allowed view c = refused forbidden
allowed invisible c = refused not_found

unfoldable pub authorize_cluster_write : Memory → Option User → Text → Authorized
authorize_cluster_write m actor id = elim (get_cluster m id) [
  | none ↦ refused not_found
  | some c ↦ allowed (access_to m actor c) c
]

abbrev pub group_of : GroupMembership → Text
group_of m = m.group_id

-- the accounts that share a group with the actor, the actor left out
unfoldable pub shares_group : User → User → Bool
shares_group actor u =
    not (text_eq u.id actor.id)
    && any (λ m. has (map group_of actor.memberships) m.group_id) u.memberships

-- ListClusters: no actor is forbidden
unfoldable pub visible_clusters : Memory → Option User → Option (List Cluster)
visible_clusters m none = none
visible_clusters m (some actor) =
    let sharers = map user_id (rows_where (shares_group actor) m.users) in
    if actor.is_admin
    then some (list_clusters m)
    else if length actor.memberships == 0
    then some (rows_where (λ c. text_eq c.owner_id actor.id) m.clusters)
    else some (rows_where (λ c. text_eq c.owner_id actor.id || has sharers c.owner_id) m.clusters)
