-- ===== src/Security/Roles/Hierarchy.antt =====
-- backend/security/rbac/role_manager.py: the hierarchy of roles beside the permissions they carry.
use osint_platform_core.Base.{true, String, some, ◌≡◌, refl, ◌↔◌, arith, str_eq, str_eq_iff}
use osint_platform_core.Base.Rows.{find-passes}
use osint_platform_core.Security.Roles.{
  Role, admin, analyst, viewer, api_user, Permission, entity_read, entity_create, entity_delete,
  case_read, has_permission, is_at_least, role_value, role_from_string, get_all_roles,
}

-- An administrator has every permission.
has_permission-admin : (p : Permission) → has_permission admin p ≡ true
unfolding has_permission
has_permission-admin entity_read = refl
has_permission-admin _ = refl

viewer-le-analyst :
    (p : Permission) → has_permission viewer p ≡ true → has_permission analyst p ≡ true
unfolding has_permission
viewer-le-analyst entity_read h = refl
viewer-le-analyst _ h = cc

api_user-le-viewer :
    (p : Permission) → has_permission api_user p ≡ true → has_permission viewer p ≡ true
unfolding has_permission
api_user-le-viewer entity_read h = refl
api_user-le-viewer _ h = cc

has_permission_mono :
    (role minimum : Role) (p : Permission)
    → is_at_least role minimum ≡ true
    → has_permission minimum p ≡ true
    → has_permission role p ≡ true
unfolding is_at_least
has_permission_mono admin minimum p h k = has_permission-admin p
has_permission_mono analyst analyst p h k = k
has_permission_mono analyst viewer p h k = viewer-le-analyst p k
has_permission_mono analyst api_user p h k = viewer-le-analyst p (api_user-le-viewer p k)
has_permission_mono viewer viewer p h k = k
has_permission_mono viewer api_user p h k = api_user-le-viewer p k
has_permission_mono api_user api_user p h k = k
has_permission_mono _ _ p h k = cc

-- Each lower role lacks a permission of the next higher one.
outranks :
    (role minimum : Role)
    → ((p : Permission) → has_permission minimum p ≡ true → has_permission role p ≡ true)
    → is_at_least role minimum ≡ true
unfolding is_at_least has_permission
outranks analyst admin all = cc (all entity_delete refl)
outranks viewer admin all = cc (all entity_delete refl)
outranks viewer analyst all = cc (all entity_create refl)
outranks api_user admin all = cc (all entity_delete refl)
outranks api_user analyst all = cc (all entity_create refl)
outranks api_user viewer all = cc (all case_read refl)
outranks _ _ all = ground arith

role_from_string-role_value : (role : Role) → role_from_string (role_value role) ≡ some role
unfolding role_from_string
role_from_string-role_value admin = refl
role_from_string-role_value _ = refl

-- A role ranks at least as high as another exactly when it grants every permission that the other
-- grants.
pub is_at_least_iff :
    (role minimum : Role)
    → (is_at_least role minimum ≡ true)
      ↔ ((p : Permission) → has_permission minimum p ≡ true → has_permission role p ≡ true)
is_at_least_iff role minimum = (λ h p. has_permission_mono role minimum p h, outranks role minimum)

role_value-found : (s : String) (role : Role) → role_from_string s ≡ some role → role_value role ≡ s
unfolding role_from_string
role_value-found s role h =
    (str_eq_iff (role_value role) s).0
      (find-passes (λ r. str_eq (role_value r) s) get_all_roles role h)

-- A text parses as a role exactly when it is the value of that role.
pub role_from_string_iff :
    (s : String) (role : Role) → (role_from_string s ≡ some role) ↔ (role_value role ≡ s)
role_from_string_iff s role =
    (role_value-found s role, λ e. rw (← e) (role_from_string-role_value role))
