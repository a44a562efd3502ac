-- ===== src/Store/Accounts.antt =====
-- internal/store/store.go: a lookup by a unique name finds what a lookup by the id finds.
use kaa_s_demo.Prelude.Dict.{get}
use mathlib.Core.Path.{subst}
use kaa_s_demo.Domain.User.{User}
use kaa_s_demo.Prelude.{ap, ◌∙◌, sym, arith, ◌↔◌, text_eq, text_eq_iff, Bool, ◌≡◌, Text, some, true}
use kaa_s_demo.Store.Memory.{Memory, get_user, get_user_by_username, same_username}
use kaa_s_demo.Store.Find.{row_where-get, get-row_where}
use kaa_s_demo.Store.Requests.{Reached}
use kaa_s_demo.Store.Sound.{IsSound}
use kaa_s_demo.Store.Sound.Runs.{Reached-IsSound}

abbrev has_username : Text → User → Bool
has_username username u = text_eq u.username username

module _ (m : Memory) (sound : IsSound m) (username : Text) where
  found_by_id :
      (u : User)
      → get_user_by_username m username ≡ some u
      → (get_user m u.id ≡ some u) × (u.username ≡ username)
  unfolding get_user_by_username get_user
  found_by_id u e =
      let (k, at, pass) = row_where-get (has_username username) m.users u sound.users.distinct e in
      (
        subst (λ (i : Text). get m.users i ≡ some u) (sym (sound.users.own k u at)) at,
        (text_eq_iff u.username username).0 pass,
      )

  found_by_name :
      (u : User)
      → get_user m u.id ≡ some u
      → u.username ≡ username
      → get_user_by_username m username ≡ some u
  unfolding get_user_by_username get_user
  found_by_name u at name =
      let pass = (text_eq_iff u.username username).1 name in
      let (w, found) = get-row_where (has_username username) m.users u.id u at pass in
      let (k, at', pass') =
        row_where-get (has_username username) m.users w sound.users.distinct found in
      let same : same_username u w ≡ true = ground (
        arith,
        text_eq_iff u.username w.username,
        text_eq_iff w.username username,
        text_eq_iff u.username username,
      ) in
      let key : u.id ≡ k = sound.users.alone u.id k u w at at' same in
      let one : some u ≡ some w = sym at ∙ ap (get m.users) key ∙ at' in found ∙ sym one

-- In a state that is reached, GetUserByUsername gives an account exactly if GetUser gives it for its
-- id and it has that username.
pub get_user_by_username_iff :
    {m : Memory}
    → Reached m
    → (username : Text) (u : User)
    → (get_user_by_username m username ≡ some u)
      ↔ ((get_user m u.id ≡ some u) × (u.username ≡ username))
get_user_by_username_iff {m} r username u = (
  found_by_id m (Reached-IsSound r) username u,
  λ h. found_by_name m (Reached-IsSound r) username u h.0 h.1,
)
