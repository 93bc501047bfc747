-- ===== src/Security/Identity/Enforcement.antt =====
-- backend/security/rbac/permission_checker.py: the guards, as dependencies and as checks in a
-- handler.
use osint_platform_core.Base.{
  Option, none, if◌then◌else◌, String, Bool, true, false, some, ◌≡◌, refl, arith,
}
use osint_platform_core.Base.Http.{pure, fail, ok, http_exception, Handler}
use osint_platform_core.Security.Accounts.{User, Db}
use osint_platform_core.Security.Roles.{
  Role, Permission, has_permission, is_at_least, role_from_string,
}
use osint_platform_core.Security.Roles.Hierarchy.{is_at_least_iff}
use osint_platform_core.Security.Identity.{
  with_role, require_permission, require_role, check_permission, check_role,
}

-- A guard that lets its user pass exactly if `b`, answers 403 if not, and writes nothing.
abbrev pub Guards : Bool → User → Handler Db User → Type 0
Guards true u m = (db : Db) → m db ≡ (ok u, db)
Guards false u m = (db : Db) → (detail : String) × (m db ≡ (http_exception 403 detail, db))

-- A guard decided by a test of the role.
Guards-test :
    (test : Role → Bool) (denied : Role → String) (u : User) (o : Option Role)
    → Guards
        (elim o [ none ↦ false | some role ↦ test role ])
        u
        (with_role u o (λ role. if test role then pure u else fail 403 (denied role)))
unfolding with_role
Guards-test test denied u none = λ db. (_, refl)
Guards-test test denied u (some role) = decided (test role)
  where
    decided : (b : Bool) → Guards b u (if b then pure u else fail 403 (denied role))
    decided true = λ db. refl
    decided false = λ db. (denied role, refl)

permission-Guards :
    (p : Permission) (u : User) → Guards (check_permission u p) u (require_permission p u)
unfolding require_permission check_permission
permission-Guards p u = Guards-test (λ role. has_permission role p) _ u (role_from_string u.role)

role-Guards : (minimum : Role) (u : User) → Guards (check_role u minimum) u (require_role minimum u)
unfolding require_role check_role
role-Guards minimum u = Guards-test (λ role. is_at_least role minimum) _ u (role_from_string u.role)

-- The dependencies and the checks inside a handler agree: `require_permission` and `require_role`
-- let the user pass, unchanged, exactly where `check_permission` and `check_role` say yes, answer
-- 403 everywhere else, also for an unknown role, and write nothing.
pub Guards-agree :
    (p : Permission) (minimum : Role) (u : User)
    → Guards (check_permission u p) u (require_permission p u)
      × Guards (check_role u minimum) u (require_role minimum u)
Guards-agree p minimum u = (permission-Guards p u, role-Guards minimum u)

role-of-check :
    (u : User) (minimum : Role)
    → check_role u minimum ≡ true
    → (r : Role) × (role_from_string u.role ≡ some r) × (is_at_least r minimum ≡ true)
unfolding check_role
role-of-check u minimum h = ground arith

-- A user who passes the guard of a minimum role passes the guard of every permission that this role
-- carries.
pub check_role-check_permission :
    (u : User) (minimum : Role) (p : Permission)
    → check_role u minimum ≡ true
    → has_permission minimum p ≡ true
    → check_permission u p ≡ true
unfolding check_permission
check_role-check_permission u minimum p h k =
    let (r, known, high) = role-of-check u minimum h in
    rw (known, check_permission) ((is_at_least_iff r minimum).0 high p k)
