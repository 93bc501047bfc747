-- ===== src/Security/Roles.antt =====
-- backend/security/rbac/role_manager.py: the roles, the permissions and what grants them.
pub mod Hierarchy
use osint_platform_core.Base.{
  ℕ, String, Bool, Option, none, some, List, [], ◌∷◌, leb, str_eq, any, if◌then◌else◌,
}
use osint_platform_core.Base.Rows.{find}

pub data Role : Type 0 where
  admin analyst viewer api_user : Role

-- the `value` of a member of the string enum
unfoldable pub role_value : Role → String
role_value admin = "admin"
role_value analyst = "analyst"
role_value viewer = "viewer"
role_value api_user = "api_user"

pub data Permission : Type 0 where
  entity_read entity_create entity_update entity_delete : Permission
  relationship_read relationship_create relationship_update relationship_delete : Permission
  case_read case_create case_update case_delete : Permission
  source_read source_create source_delete ingest : Permission
  search_read export_create user_manage api_key_manage system_admin : Permission
  graph_read graph_analyze : Permission

unfoldable pub permission_value : Permission → String
permission_value entity_read = "entity:read"
permission_value entity_create = "entity:create"
permission_value entity_update = "entity:update"
permission_value entity_delete = "entity:delete"
permission_value relationship_read = "relationship:read"
permission_value relationship_create = "relationship:create"
permission_value relationship_update = "relationship:update"
permission_value relationship_delete = "relationship:delete"
permission_value case_read = "case:read"
permission_value case_create = "case:create"
permission_value case_update = "case:update"
permission_value case_delete = "case:delete"
permission_value source_read = "source:read"
permission_value source_create = "source:create"
permission_value source_delete = "source:delete"
permission_value ingest = "ingest:create"
permission_value search_read = "search:read"
permission_value export_create = "export:create"
permission_value user_manage = "user:manage"
permission_value api_key_manage = "apikey:manage"
permission_value system_admin = "system:admin"
permission_value graph_read = "graph:read"
permission_value graph_analyze = "graph:analyze"

all_permissions : List Permission
all_permissions =
    entity_read ∷ entity_create ∷ entity_update ∷ entity_delete ∷ relationship_read
    ∷ relationship_create ∷ relationship_update ∷ relationship_delete ∷ case_read ∷ case_create
    ∷ case_update ∷ case_delete ∷ source_read ∷ source_create ∷ source_delete ∷ ingest ∷ search_read
    ∷ export_create ∷ user_manage ∷ api_key_manage ∷ system_admin ∷ graph_read ∷ graph_analyze ∷ []

role_permissions : Role → List Permission
unfolding all_permissions
role_permissions admin = all_permissions
role_permissions analyst =
    entity_read ∷ entity_create ∷ entity_update ∷ relationship_read ∷ relationship_create
    ∷ relationship_update ∷ case_read ∷ case_create ∷ case_update ∷ source_read ∷ ingest
    ∷ search_read ∷ export_create ∷ graph_read ∷ graph_analyze ∷ api_key_manage ∷ []
role_permissions viewer =
    entity_read ∷ relationship_read ∷ case_read ∷ source_read ∷ search_read ∷ graph_read ∷ []
role_permissions api_user = entity_read ∷ relationship_read ∷ search_read ∷ graph_read ∷ []

-- Every role has an entry, so the default of `ROLE_PERMISSIONS.get(role, set())` is not met.
get_permissions : Role → List Permission
unfolding role_permissions
get_permissions role = role_permissions role

-- `permission in …`: members of a string enum are equal if their values are.
unfoldable pub has_permission : Role → Permission → Bool
unfolding get_permissions permission_value
has_permission role permission =
    any (λ p. str_eq (permission_value p) (permission_value permission)) (get_permissions role)

unfoldable pub get_all_roles : List Role
get_all_roles = admin ∷ analyst ∷ viewer ∷ api_user ∷ []

unfoldable pub role_hierarchy_level : Role → ℕ
role_hierarchy_level admin = 4
role_hierarchy_level analyst = 3
role_hierarchy_level viewer = 2
role_hierarchy_level api_user = 1

unfoldable pub is_at_least : Role → Role → Bool
unfolding role_hierarchy_level
is_at_least role minimum = leb (role_hierarchy_level minimum) (role_hierarchy_level role)

-- `Role(role_str)`; `none` is the `ValueError`.
unfoldable pub role_from_string : String → Option Role
unfolding get_all_roles role_value
role_from_string role_str = find (λ r. str_eq (role_value r) role_str) get_all_roles
