-- ===== src/App/Access/Listing.antt =====
-- internal/app/app.go: the clusters that are listed are those that the account has access to.
use kaa_s_demo.Prelude.Keys.{text_eq_sym}
use kaa_s_demo.Prelude.{
  ap, ◌==◌, length, sym, Bool-cases, Option, arith, ◌||◌, ◌∙◌, refl, map, text_eq, ◌≡◌, Bool, Text,
  List, [], ◌∷◌, none, some, true, false, inl, inr,
}
use kaa_s_demo.Prelude.Any.{any}
use kaa_s_demo.Prelude.Keys.{is_some, has}
use kaa_s_demo.Domain.User.{User, GroupMembership, in_group, role_in, role_of}
use kaa_s_demo.Domain.Cluster.{Cluster}
use kaa_s_demo.Store.Memory.{Memory, get_user, list_clusters, user_id, same_username}
use kaa_s_demo.Store.Table.{rows_where, select}
use kaa_s_demo.Store.Find.{ids, has-rows_where, passes}
use kaa_s_demo.Store.Requests.{Reached}
use kaa_s_demo.Store.Sound.{IsSound}
use kaa_s_demo.Store.Sound.Runs.{Reached-IsSound}
use kaa_s_demo.App.Access.{
  ClusterAccess, invisible, view, is_visible, best_access, access_through, access_to, group_of,
  shares_group, visible_clusters,
}

-- tests that agree select the same rows
select_same :
    {V : Type 0} (p q : V → Bool) (l : List (Text × V))
    → ((v : V) → p v ≡ q v)
    → select p l ≡ select q l
unfolding select
select_same p q [] h = refl
select_same p q ((k, v) ∷ l) h =
    let ih = select_same p q l h in let here = h v in rw (here, ih) refl

-- a membership in the group
in_group_has :
    (g : Text) (ms : List GroupMembership) → is_some (role_of ms g) ≡ has (map group_of ms) g
unfolding role_of has
in_group_has g [] = refl
in_group_has g (m ∷ ms) = let ih = in_group_has g ms in ground arith

-- some access is given exactly by a group that the owner is in
best_visible :
    (owner : User) (best : ClusterAccess) (ms : List GroupMembership)
    → is_visible (best_access owner best ms)
      ≡ (is_visible best || any (λ m. in_group owner m.group_id) ms)
unfolding best_access any
best_visible owner best [] = ground arith
best_visible owner best (m ∷ ms) =
    let ih = best_visible owner best ms in let ih2 = best_visible owner view ms in ground arith

any_never : (bs : List GroupMembership) → any (λ m. has (map group_of []) m.group_id) bs ≡ false
unfolding any has
any_never [] = refl
any_never (b ∷ bs) = any_never bs

-- two lists of memberships share a group from either side
shared_head :
    (g : Text) (gs : List Text) (ms : List GroupMembership)
    → any (λ m. text_eq g m.group_id || has gs m.group_id) ms
      ≡ (has (map group_of ms) g || any (λ m. has gs m.group_id) ms)
unfolding any has
shared_head g gs [] = refl
shared_head g gs (m ∷ ms) =
    let ih = shared_head g gs ms in let s = text_eq_sym g m.group_id in ground arith

shared :
    (as' bs : List GroupMembership)
    → any (λ m. has (map group_of as') m.group_id) bs
      ≡ any (λ m. has (map group_of bs) m.group_id) as'
unfolding any has
shared [] bs = any_never bs
shared (a ∷ as') bs =
    shared_head a.group_id (map group_of as') bs ∙ (let ih = shared as' bs in rw ih refl)

any-in_group :
    (u : User) (ms : List GroupMembership)
    → any (λ m. in_group u m.group_id) ms
      ≡ any (λ m. has (map group_of u.memberships) m.group_id) ms
unfolding any in_group role_in
any-in_group u [] = refl
any-in_group u (m ∷ ms) =
    let ih = any-in_group u ms in
    let here = in_group_has m.group_id u.memberships in rw (here, ih) refl

module _ (m : Memory) (actor : User) (sound : IsSound m) where
  -- the accounts listed as sharing a group
  sharers_lem :
      (k : Text)
      → has (map user_id (rows_where (shares_group actor) m.users)) k
        ≡ passes (shares_group actor) (get_user m k)
  unfolding ids get_user
  sharers_lem k = has-rows_where user_id (shares_group actor) same_username m.users sound.users k

  owner_lem :
      (o : Option User) (id : Text)
      → ((u : User) → o ≡ some u → u.id ≡ id)
      → text_eq id actor.id ≡ false
      → passes (shares_group actor) o ≡ is_visible (access_through actor o)
  unfolding shares_group
  owner_lem none id own other = refl
  owner_lem (some u) id own other =
      let key = own u refl in
      let other' : text_eq u.id actor.id ≡ false = rw key other in
      let through = any-in_group u actor.memberships in
      rw other' (
        shared actor.memberships u.memberships
        ∙ sym through
        ∙ sym (best_visible u invisible actor.memberships))

  visible_lem :
      (c : Cluster)
      → actor.is_admin ≡ false
      → (text_eq c.owner_id actor.id
          || has (map user_id (rows_where (shares_group actor) m.users)) c.owner_id)
        ≡ is_visible (access_to m (some actor) c)
  unfolding access_to
  visible_lem c plain = elim (Bool-cases (text_eq c.owner_id actor.id)) [
    | inl own ↦ ground arith
    | inr other ↦
        let own : (u : User) → get_user m c.owner_id ≡ some u → u.id ≡ c.owner_id =
          λ u e. unfold get_user in sound.users.own c.owner_id u e in
        let listed = sharers_lem c.owner_id in
        let through = owner_lem (get_user m c.owner_id) c.owner_id own other in ground arith
  ]

no_members : (ms : List GroupMembership) → (length ms == 0) ≡ true → ms ≡ []
no_members [] h = refl
no_members (a ∷ ms) h = absurd (ground arith)

-- an account without groups has access through none
alone_lem :
    (actor : User) (o : Option User)
    → actor.memberships ≡ []
    → is_visible (access_through actor o) ≡ false
unfolding any
alone_lem actor none e = refl
alone_lem actor (some u) e = best_visible u invisible actor.memberships ∙ rw e refl

module _ (m : Memory) (actor : User) where
  admin_visible :
      actor.is_admin ≡ true → (c : Cluster) → true ≡ is_visible (access_to m (some actor) c)
  unfolding access_to
  admin_visible admin c = ground arith

  owned_visible :
      actor.is_admin ≡ false
      → actor.memberships ≡ []
      → (c : Cluster) → text_eq c.owner_id actor.id ≡ is_visible (access_to m (some actor) c)
  unfolding access_to
  owned_visible plain e c = let none_ = alone_lem actor (get_user m c.owner_id) e in ground arith

-- In a state that the store reaches, ListClusters gives an account exactly the stored clusters to
-- which accessTo gives it some access.
pub visible_clusters-access_to :
    {m : Memory}
    → Reached m
    → (actor : User)
    → visible_clusters m (some actor)
      ≡ some (rows_where (λ c. is_visible (access_to m (some actor) c)) m.clusters)
unfolding visible_clusters list_clusters rows_where
visible_clusters-access_to {m} r actor = elim (Bool-cases actor.is_admin) [
  | inl admin ↦
      simp (visible_clusters, admin)
        (ap some (
          select_same (λ c. true) (λ c. is_visible (access_to m (some actor) c)) m.clusters.entries
            (λ c. admin_visible m actor admin c)))
  | inr plain ↦ elim (Bool-cases (length actor.memberships == 0)) [
    | inl alone ↦
        simp (visible_clusters, plain, alone)
          (ap some (
            select_same (λ c. text_eq c.owner_id actor.id)
              (λ c. is_visible (access_to m (some actor) c)) m.clusters.entries
              (λ c. owned_visible m actor plain (no_members actor.memberships alone) c)))
    | inr grouped ↦
        simp (visible_clusters, plain, grouped)
          (ap some (
            select_same
              (λ c.
                text_eq c.owner_id actor.id
                || has (map user_id (rows_where (shares_group actor) m.users)) c.owner_id)
              (λ c. is_visible (access_to m (some actor) c)) m.clusters.entries
              (λ c. visible_lem m actor (Reached-IsSound r) c plain)))
  ]
]
