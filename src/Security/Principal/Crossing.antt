-- ===== src/Security/Principal/Crossing.antt =====
-- Grants of tenant users on one table or database (`from_tenant_user` and the checks of
-- nanograph-core/src/object/security/principal.rs) in other tenants.
use mathlib.Core.Option.{some-injective}
use nanograph.Prelude.{
  ℕ, zero, suc, ◌≡◌, refl, ap, ◌∙◌, some, List, [], ◌∷◌, Bool, true, false, ◌||◌, get_elem?, arith,
}
use nanograph.Security.Permission.{Permission, implies}
use nanograph.Security.Scope.{
  PermissionGrant, table, database, allows_table, allows_database, matches_table, matches_database,
  allows_index, matches_index,
}
use nanograph.Security.Principal.{
  Derived, RoleRecord, GroupRecord, SystemUserRecord, TenantUserRecord, find_role, from_tenant_user,
  any, has_database_permission, has_table_permission, has_index_permission,
}
use nanograph.Security.Principal.Resolution.{through_roles, resolve_tenant_grants-any}

or_true : (b : Bool) → (b || true) ≡ true
or_true false = refl
or_true true = refl

module _ (p : PermissionGrant → Bool) where
  any_of_elem :
      (gs : List PermissionGrant) (i : ℕ) (g : PermissionGrant)
      → get_elem? gs i ≡ some g
      → p g ≡ true
      → any p gs ≡ true
  unfolding any
  any_of_elem [] i g e h = absurd (cc)
  any_of_elem (x ∷ gs) zero g e h = rw (ap p (some-injective x g e), h) refl
  any_of_elem (x ∷ gs) (suc i) g e h = rw (any_of_elem gs i g e h) (or_true (p x))

  through_roles_of_elem :
      (roles : List RoleRecord) (ids : List ℕ) (i id : ℕ) (r : RoleRecord)
      → get_elem? ids i ≡ some id
      → find_role roles id ≡ some r
      → any p r.grants ≡ true
      → through_roles p roles ids ≡ true
  unfolding through_roles
  through_roles_of_elem roles [] i id r e f h = absurd (cc)
  through_roles_of_elem roles (x ∷ ids) zero id r e f h =
      let here : find_role roles x ≡ some r = ap (find_role roles) (some-injective x id e) ∙ f in
      rw (here, h) refl
  through_roles_of_elem roles (x ∷ ids) (suc i) id r e f h =
      rw (through_roles_of_elem roles ids i id r e f h) (or_true _)

  -- A grant of a role of the tenant user counts.
  role_grant_counts :
      (D : Derived) (user : SystemUserRecord) (tenant_user : TenantUserRecord)
      (groups : List GroupRecord) (roles : List RoleRecord) (i id j : ℕ) (r : RoleRecord)
      (g : PermissionGrant)
      → get_elem? tenant_user.role_ids i ≡ some id
      → find_role roles id ≡ some r
      → get_elem? r.grants j ≡ some g
      → p g ≡ true
      → any p (from_tenant_user D user tenant_user groups roles).effective_grants ≡ true
  role_grant_counts D user tenant_user groups roles i id j r g e f k h =
      resolve_tenant_grants-any p D user tenant_user groups roles
      ∙ rw
          (through_roles_of_elem roles tenant_user.role_ids i id r e f
            (any_of_elem r.grants j g k h))
          (or_true _)

-- A tenant user lists an existing role that grants a permission on one table, and on one database.
-- Whichever tenant the user belongs to, the user has every permission that this one implies in every
-- tenant: on the table of that number in any database, and on the database of that number with every
-- table and index in it.
pub role_grants_cross_tenants :
    (D : Derived) (user : SystemUserRecord) (tenant_user : TenantUserRecord)
    (groups : List GroupRecord) (roles : List RoleRecord) (i id j k : ℕ) (r : RoleRecord)
    (granted p : Permission) (y z t d x : ℕ)
    → get_elem? tenant_user.role_ids i ≡ some id
    → find_role roles id ≡ some r
    → get_elem? r.grants j ≡ some (record { permission = granted; scope = table y })
    → get_elem? r.grants k ≡ some (record { permission = granted; scope = database z })
    → implies granted p ≡ true
    → (has_table_permission (from_tenant_user D user tenant_user groups roles) p t d y ≡ true)
      × (has_database_permission (from_tenant_user D user tenant_user groups roles) p t z ≡ true)
      × (has_table_permission (from_tenant_user D user tenant_user groups roles) p t z x ≡ true)
      × (has_index_permission (from_tenant_user D user tenant_user groups roles) p t z x ≡ true)
unfolding has_table_permission has_database_permission has_index_permission allows_table
    allows_database allows_index matches_table matches_database matches_index
role_grants_cross_tenants D user tenant_user groups roles i id j k r granted p y z t d x e f gy gz
      h =
    let of_role : (q : PermissionGrant → Bool) (n : ℕ) (g : PermissionGrant)
        → get_elem? r.grants n ≡ some g
        → q g ≡ true
        → any q (from_tenant_user D user tenant_user groups roles).effective_grants ≡ true =
      λ q n g a b. role_grant_counts q D user tenant_user groups roles i id n r g e f a b in
    (
      of_role (λ g. allows_table g p t d y) j _ gy (ground (arith, h)),
      of_role (λ g. allows_database g p t z) k _ gz (ground (arith, h)),
      of_role (λ g. allows_table g p t z x) k _ gz (ground (arith, h)),
      of_role (λ g. allows_index g p t z x) k _ gz (ground (arith, h)),
    )
