-- ===== src/Domain/User.antt =====
-- internal/domain/domain.go: accounts and the capacity that is granted to them.
use kaa_s_demo.Prelude.Keys.{is_some}
use kaa_s_demo.Go.Time.{Time}
use kaa_s_demo.Prelude.{
  [], ◌∷◌, if◌then◌else◌, codes, ◌∷◌, Option, text_eq, Bool, List, Text, none, some,
}
use kaa_s_demo.Prelude.Int.{ℤ, pos}
use kaa_s_demo.Prelude.Dict.{Dict, get}

pub record ResourceQuota : Type 0 where
  pub vcpu : ℤ
  pub mem_mb : ℤ
  pub disk_gb : ℤ

abbrev pub no_quota : ResourceQuota
no_quota = record { vcpu = pos 0; mem_mb = pos 0; disk_gb = pos 0 }

pub record GroupMembership : Type 0 where
  pub group_id : Text
  pub role : Text

pub record User : Type 0 where
  pub id : Text
  pub username : Text
  pub password_hash : Text
  pub auth_source : Text
  pub display_name : Text
  pub email : Text
  pub is_admin : Bool
  pub quotas : Dict ResourceQuota
  pub memberships : List GroupMembership
  pub created_at : Time

-- a key that the map lacks reads as the zero value
unfoldable pub quota_on : User → Text → ResourceQuota
quota_on u provider = elim (get u.quotas provider) [ none ↦ no_quota | some q ↦ q ]

unfoldable pub role_of : List GroupMembership → Text → Option Text
role_of [] group = none
role_of (m ∷ ms) group =
    let rest = role_of ms group in if text_eq m.group_id group then some m.role else rest

-- RoleIn: the role in the first membership of the group
unfoldable pub role_in : User → Text → Option Text
role_in u group = role_of u.memberships group

unfoldable pub in_group : User → Text → Bool
in_group u group = is_some (role_in u group)

unfoldable pub from_directory : User → Bool
from_directory u = text_eq u.auth_source (codes "ldap")
