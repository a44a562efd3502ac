-- ===== src/Vault/Access/Mirror.antt =====
-- internal/vault/vault.go: the policies of a token are the access that internal/app gives.
use kaa_s_demo.Prelude.{
  Option-cases, ◌∙◌, ◌&&◌, Bool-cases, ◌++◌, ap, refl, sym, text_eq_iff, codes, arith, ◌||◌, ◌≡◌,
  Option, List, text_eq, Text, Bool, [], ◌∷◌, none, some, true, false, inl, inr,
}
use kaa_s_demo.Prelude.Any.{any}
use kaa_s_demo.Prelude.Keys.{has, text_eq_sym}
use kaa_s_demo.Prelude.Dict.{Dict, get}
use kaa_s_demo.Domain.User.{User, GroupMembership}
use kaa_s_demo.Domain.Cluster.{Cluster}
use kaa_s_demo.Domain.Disks.{text_less}
use kaa_s_demo.Domain.Group.{role_read, role_write}
use kaa_s_demo.Go.Sort.{stable_sort, any-stable_sort}
use kaa_s_demo.Go.Strings.Last.{split_last}
use kaa_s_demo.Store.Memory.{Memory, get_user}
use kaa_s_demo.App.Access.{ClusterAccess, invisible, view, full, is_full, best_access, access_to}
use kaa_s_demo.Vault.Access.{
  policy_read, policy_write, with_key, sorted_keys, best_role, role_policy, cluster_policy, added,
  policies_onto, policies_for_user,
}

abbrev pub is_view : ClusterAccess → Bool
is_view view = true
is_view _ = false

-- two tests with the same truth
same_truth : (a b : Bool) → (a ≡ true → b ≡ true) → (b ≡ true → a ≡ true) → a ≡ b
same_truth true b h k = sym (h refl)
same_truth false true h k = k refl
same_truth false false h k = refl

-- names of policies are equal only for one cluster and one right
write_names : (a b : Text) → text_eq (policy_write a) (policy_write b) ≡ text_eq a b
unfolding policy_write text_eq any
write_names a b =
    same_truth _ _
      (λ h.
        (text_eq_iff a b).1
          (split_last b'-' a b (codes "write") (codes "write") refl refl ((text_eq_iff _ _).0 h)).0)
      (λ h. (text_eq_iff _ _).1 (ap (λ t. t ++ codes "-write") ((text_eq_iff a b).0 h)))

read_names : (a b : Text) → text_eq (policy_read a) (policy_read b) ≡ text_eq a b
unfolding policy_read text_eq any
read_names a b =
    same_truth _ _
      (λ h.
        (text_eq_iff a b).1
          (split_last b'-' a b (codes "read") (codes "read") refl refl ((text_eq_iff _ _).0 h)).0)
      (λ h. (text_eq_iff _ _).1 (ap (λ t. t ++ codes "-read") ((text_eq_iff a b).0 h)))

differ_names : (a b : Text) → text_eq (policy_read a) (policy_write b) ≡ false
unfolding policy_read policy_write text_eq any
differ_names a b =
    same_truth _ _
      (λ h.
        let e : codes "read" ≡ codes "write" =
          (split_last b'-' a b (codes "read") (codes "write") refl refl
            ((text_eq_iff _ _).0 h)).1 in
        (text_eq_iff (codes "read") (codes "write")).1 e)
      (λ h. cc)

-- the role that stands for an access
abbrev role_for : ClusterAccess → Text
role_for invisible = []
role_for view = role_read
role_for full = role_write

best_role_lem :
    (owner : User) (b : ClusterAccess) (ms : List GroupMembership)
    → best_role owner (role_for b) ms ≡ role_for (best_access owner b ms)
unfolding best_role best_access
best_role_lem owner b [] = refl
best_role_lem owner b (m ∷ ms) =
    let ih = best_role_lem owner b ms in let seen = best_role_lem owner view ms in ground arith

abbrev names : Text → Option Text → Bool
names p none = false
names p (some q) = text_eq q p

added_lem :
    (set : List Text) (o : Option Text) (p : Text) → has (added set o) p ≡ (names p o || has set p)
unfolding with_key has
added_lem set none p = refl
added_lem set (some q) p = elim (Bool-cases (has set q)) [
  | inr new ↦ simp (with_key, new, has)
  | inl old ↦ elim (Bool-cases (text_eq q p)) [
    | inr other ↦ simp (with_key, old, other)
    | inl same ↦
        let e : q ≡ p = (text_eq_iff q p).0 same in
        let old' : has set p ≡ true = rw (← e) old in simp (with_key, old, same, old')
  ]
]

onto_lem :
    (actor : User) (owners : Dict User) (p : Text) (set : List Text) (cs : List Cluster)
    → has (policies_onto actor owners set cs) p
      ≡ (has set p || any (λ c. names p (cluster_policy actor owners c)) cs)
unfolding policies_onto any
onto_lem actor owners p set [] = ground arith
onto_lem actor owners p set (c ∷ cs) =
    let ih = onto_lem actor owners p (added set (cluster_policy actor owners c)) cs in
    let one = added_lem set (cluster_policy actor owners c) p in ground arith

has-any : (l : List Text) (k : Text) → has l k ≡ any (λ j. text_eq j k) l
unfolding has any
has-any [] k = refl
has-any (j ∷ l) k = let ih = has-any l k in rw ih refl

sorted_lem : (set : List Text) (k : Text) → has (sorted_keys set) k ≡ has set k
unfolding sorted_keys
sorted_lem set k =
    has-any (stable_sort text_less set) k
    ∙ any-stable_sort text_less (λ j. text_eq j k) set
    ∙ sym (has-any set k)

role_names :
    (id k : Text) (a : ClusterAccess)
    → (names (policy_write k) (role_policy id (role_for a)) ≡ (text_eq id k && is_full a))
      × (names (policy_read k) (role_policy id (role_for a)) ≡ (text_eq id k && is_view a))
unfolding role_policy text_eq
role_names id k invisible = ground arith
role_names id k view = let d = differ_names id k in let r = read_names id k in ground arith
role_names id k full =
    let d = text_eq_sym (policy_write id) (policy_read k) ∙ differ_names k id in
    let w = write_names id k in ground arith

-- the policies that a cluster adds are the access to it
module _ (m : Memory) (actor : User) (owners : Dict User) (plain : actor.is_admin ≡ false) where
  cluster_names :
      (c : Cluster) (k : Text)
      → get owners c.owner_id ≡ get_user m c.owner_id
      → (names (policy_write k) (cluster_policy actor owners c)
          ≡ (text_eq c.id k && is_full (access_to m (some actor) c)))
        × (names (policy_read k) (cluster_policy actor owners c)
            ≡ (text_eq c.id k && is_view (access_to m (some actor) c)))
  unfolding cluster_policy access_to
  cluster_names c k same = elim (Bool-cases (text_eq c.owner_id actor.id)) [
    | inl own ↦
        let w = write_names c.id k in
        let r = text_eq_sym (policy_write c.id) (policy_read k) ∙ differ_names k c.id in
        simp (cluster_policy, access_to, own, plain) (ground arith)
    | inr other ↦ elim (Option-cases (get_user m c.owner_id)) [
      | inl gone ↦
          let gone' = same ∙ gone in
          simp (cluster_policy, access_to, other, plain, gone, gone') (ground arith)
      | inr (owner, found) ↦
          let found' = same ∙ found in
          let role = best_role_lem owner invisible actor.memberships in
          simp (cluster_policy, access_to, other, plain, found, found', role)
            (role_names c.id k (best_access owner invisible actor.memberships))
    ]
  ]

  all_names :
      (cs : List Cluster) (k : Text)
      → ((id : Text) → get owners id ≡ get_user m id)
      → (any (λ c. names (policy_write k) (cluster_policy actor owners c)) cs
          ≡ any (λ c. text_eq c.id k && is_full (access_to m (some actor) c)) cs)
        × (any (λ c. names (policy_read k) (cluster_policy actor owners c)) cs
            ≡ any (λ c. text_eq c.id k && is_view (access_to m (some actor) c)) cs)
  unfolding any
  all_names [] k same = (refl, refl)
  all_names (c ∷ cs) k same =
      let (w, r) = cluster_names c k (same c.owner_id) in
      let (ws, rs) = all_names cs k same in (rw (w, ws) refl, rw (r, rs) refl)

-- Let the owners be as the store has them and the account be no admin: its token carries the write
-- policy of a name exactly if a listed cluster of that id gives it full access, and the read policy
-- exactly if one gives it a view only.
pub policies_for_user-access_to :
    (m : Memory) (actor : User) (owners : Dict User) (clusters : List Cluster)
    → actor.is_admin ≡ false
    → ((id : Text) → get owners id ≡ get_user m id)
    → (k : Text)
    → (has (policies_for_user (some actor) clusters owners) (policy_write k)
        ≡ any (λ c. text_eq c.id k && is_full (access_to m (some actor) c)) clusters)
      × (has (policies_for_user (some actor) clusters owners) (policy_read k)
          ≡ any (λ c. text_eq c.id k && is_view (access_to m (some actor) c)) clusters)
unfolding policies_for_user any has
policies_for_user-access_to m actor owners clusters plain same k =
    let (w, r) = all_names m actor owners plain clusters k same in
    (carried (policy_write k) ∙ w, carried (policy_read k) ∙ r)
  where
    set : List Text
    set = policies_onto actor owners [] clusters

    carried :
        (p : Text)
        → has (policies_for_user (some actor) clusters owners) p
          ≡ any (λ c. names p (cluster_policy actor owners c)) clusters
    carried p =
        simp (policies_for_user, plain) (sorted_lem set p ∙ onto_lem actor owners p [] clusters)
