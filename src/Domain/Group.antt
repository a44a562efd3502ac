-- ===== src/Domain/Group.antt =====
-- internal/domain/domain.go: groups, the roles in them, and custom catalogs.
use kaa_s_demo.Prelude.{Bool, List, ◌||◌, if◌then◌else◌, Text, codes, text_eq}
use kaa_s_demo.Go.Time.{Time}

pub record Group : Type 0 where
  pub id : Text
  pub name : Text
  pub source : Text
  pub source_key : Text
  pub created_at : Time

pub record CustomAddon : Type 0 where
  pub name : Text
  pub description : Text
  pub repo : Text
  pub chart : Text
  pub version : Text
  pub namespace : Text
  pub values : Text

pub record CustomCatalog : Type 0 where
  pub id : Text
  pub owner_id : Text
  pub name : Text
  pub addons : List CustomAddon
  pub created_at : Time

pub record CustomAddonRef : Type 0 where
  pub catalog_id : Text
  pub name : Text

-- GroupRoleRead, GroupRoleWrite
abbrev pub role_read : Text
role_read = codes "read"

abbrev pub role_write : Text
role_write = codes "write"

-- GroupRole.Valid
unfoldable pub is_valid_role : Text → Bool
is_valid_role r = text_eq r role_read || text_eq r role_write

abbrev pub kube_group_writers : Text
kube_group_writers = codes "kaas:writers"

abbrev pub kube_group_readers : Text
kube_group_readers = codes "kaas:readers"

unfoldable pub kube_group_for_role : Text → Text
kube_group_for_role r = if text_eq r role_write then kube_group_writers else kube_group_readers

-- AuthSourceLocal and SourceLocal, AuthSourceLDAP and SourceLDAP
abbrev pub source_local : Text
source_local = codes "local"

abbrev pub source_ldap : Text
source_ldap = codes "ldap"

unfoldable pub directory_managed : Group → Bool
directory_managed g = text_eq g.source source_ldap
