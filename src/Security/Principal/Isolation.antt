-- ===== src/Security/Principal/Isolation.antt =====
-- Tenant isolation for principals of nanograph-core/src/object/security/principal.rs.
use nanograph.Prelude.{
  ℕ, ◌≡◌, ◌≢◌, ◌⊎◌, inl, inr, ◌↔◌, refl, none, some, List, [], ◌∷◌, Bool, false, ◌||◌, ◌==◌, arith,
  Bool-cases,
}
use nanograph.BTree.Entries.{All}
use nanograph.Security.Permission.{Permission}
use nanograph.Security.Scope.{
  PermissionGrant, tenant, allows_system, allows_tenant, allows_database, allows_table,
  allows_index, allows_namespace, allows_function, tenant_isolation,
}
use nanograph.Security.Principal.{
  Derived, RoleRecord, GroupRecord, SystemUserRecord, TenantUserRecord, SecurityPrincipal,
  find_role, find_group, from_tenant_user, switch_tenant, any, has_tenant_access,
  has_system_permission, has_tenant_permission, has_database_permission, has_table_permission,
  has_index_permission, has_namespace_permission, has_function_permission,
}
use nanograph.Security.Principal.Resolution.{
  through_roles, through_groups, resolve_tenant_grants-any,
}

-- The grants are all scoped to one tenant.
abbrev pub IsConfined : ℕ → List PermissionGrant → Type 0
IsConfined own gs = All (λ g. g.scope ≡ tenant own) gs

abbrev pub RolesAreConfined : ℕ → List RoleRecord → Type 0
RolesAreConfined own roles = All (λ r. IsConfined own r.grants) roles

abbrev pub GroupsAreConfined : ℕ → List GroupRecord → Type 0
GroupsAreConfined own groups = All (λ g. IsConfined own g.grants) groups

module _ (p : PermissionGrant → Bool) (own : ℕ)
    (refused : (g : PermissionGrant) → g.scope ≡ tenant own → p g ≡ false) where
  any_refused : (gs : List PermissionGrant) → IsConfined own gs → any p gs ≡ false
  unfolding any
  any_refused [] h = refl
  any_refused (g ∷ gs) (h, hs) = rw (refused g h) (any_refused gs hs)

  find_role-IsConfined :
      (roles : List RoleRecord) (id : ℕ)
      → RolesAreConfined own roles
      → (elim (find_role roles id) [ none ↦ false | some r ↦ any p r.grants ]) ≡ false
  unfolding find_role
  find_role-IsConfined [] id h = refl
  find_role-IsConfined (r ∷ roles) id (h, hs) = elim (Bool-cases (r.id == id)) [
    | inl t ↦ rw t (any_refused r.grants h)
    | inr t ↦ rw t (find_role-IsConfined roles id hs)
  ]

  roles_refused :
      (roles : List RoleRecord) (ids : List ℕ)
      → RolesAreConfined own roles
      → through_roles p roles ids ≡ false
  unfolding through_roles
  roles_refused roles [] h = refl
  roles_refused roles (id ∷ ids) h =
      rw (find_role-IsConfined roles id h) (roles_refused roles ids h)

  find_group-IsConfined :
      (groups : List GroupRecord) (roles : List RoleRecord) (id : ℕ)
      → GroupsAreConfined own groups
      → RolesAreConfined own roles
      → (elim (find_group groups id) [
        | none ↦ false
        | some g ↦ any p g.grants || through_roles p roles g.roles
      ])
        ≡ false
  unfolding find_group
  find_group-IsConfined [] roles id h k = refl
  find_group-IsConfined (g ∷ groups) roles id (h, hs) k = elim (Bool-cases (g.id == id)) [
    | inl t ↦ rw (t, any_refused g.grants h) (roles_refused roles g.roles k)
    | inr t ↦ rw t (find_group-IsConfined groups roles id hs k)
  ]

  groups_refused :
      (groups : List GroupRecord) (roles : List RoleRecord) (ids : List ℕ)
      → GroupsAreConfined own groups
      → RolesAreConfined own roles
      → through_groups p groups roles ids ≡ false
  unfolding through_groups
  groups_refused groups roles [] h k = refl
  groups_refused groups roles (id ∷ ids) h k =
      rw (find_group-IsConfined groups roles id h k) (groups_refused groups roles ids h k)

  resolved_refused :
      (D : Derived) (user : SystemUserRecord) (tenant_user : TenantUserRecord)
      (groups : List GroupRecord) (roles : List RoleRecord)
      → IsConfined own user.grants
      → GroupsAreConfined own groups
      → RolesAreConfined own roles
      → any p (from_tenant_user D user tenant_user groups roles).effective_grants ≡ false
  resolved_refused D user tenant_user groups roles u g r =
      rw
        (
          resolve_tenant_grants-any p D user tenant_user groups roles,
          any_refused user.grants u,
          groups_refused groups roles tenant_user.group_ids g r,
        )
        (roles_refused roles tenant_user.role_ids r)

-- Where the system user's direct grants and all grants of the groups and roles are scoped to one
-- tenant, the principal of the tenant user has no permission in another tenant: not on the tenant,
-- nor on any database, table, index, namespace or function in it, and none on the system.
pub from_tenant_user_isolation :
    (D : Derived) (user : SystemUserRecord) (tenant_user : TenantUserRecord)
    (groups : List GroupRecord) (roles : List RoleRecord) (own : ℕ) (p : Permission) (t d x : ℕ)
    → IsConfined own user.grants
    → GroupsAreConfined own groups
    → RolesAreConfined own roles
    → own ≢ t
    → (has_system_permission (from_tenant_user D user tenant_user groups roles) p ≡ false)
      × (has_tenant_permission (from_tenant_user D user tenant_user groups roles) p t ≡ false)
      × (has_database_permission (from_tenant_user D user tenant_user groups roles) p t d ≡ false)
      × (has_table_permission (from_tenant_user D user tenant_user groups roles) p t d x ≡ false)
      × (has_index_permission (from_tenant_user D user tenant_user groups roles) p t d x ≡ false)
      × (has_namespace_permission (from_tenant_user D user tenant_user groups roles) p t d x
          ≡ false)
      × (has_function_permission (from_tenant_user D user tenant_user groups roles) p t d x ≡ false)
unfolding has_system_permission has_tenant_permission has_database_permission has_table_permission
    has_index_permission has_namespace_permission has_function_permission
from_tenant_user_isolation D user tenant_user groups roles own p t d x u g r n =
    let none_of : (q : PermissionGrant → Bool)
        → ((c : PermissionGrant) → c.scope ≡ tenant own → q c ≡ false)
        → any q (from_tenant_user D user tenant_user groups roles).effective_grants ≡ false =
      λ q refused. resolved_refused q own refused D user tenant_user groups roles u g r in
    (
      none_of (λ c. allows_system c p) (λ c e. (tenant_isolation c p own t d x e n).0),
      none_of (λ c. allows_tenant c p t) (λ c e. (tenant_isolation c p own t d x e n).1),
      none_of (λ c. allows_database c p t d) (λ c e. (tenant_isolation c p own t d x e n).2),
      none_of (λ c. allows_table c p t d x) (λ c e. (tenant_isolation c p own t d x e n).3),
      none_of (λ c. allows_index c p t d x) (λ c e. (tenant_isolation c p own t d x e n).4),
      none_of (λ c. allows_namespace c p t d x) (λ c e. (tenant_isolation c p own t d x e n).5),
      none_of (λ c. allows_function c p t d x) (λ c e. (tenant_isolation c p own t d x e n).6),
    )

-- Switching the tenant panics exactly when the principal, the system user and the tenant user are
-- not one user; otherwise the new principal has access to the tenant user's tenant and to no other.
pub switch_tenant-has_tenant_access :
    (D : Derived) (s : SecurityPrincipal) (user : SystemUserRecord) (tenant_user : TenantUserRecord)
    (groups : List GroupRecord) (roles : List RoleRecord)
    → ((switch_tenant D s user tenant_user groups roles ≡ none)
        ↔ ((s.user_id ≢ user.user_id) ⊎ (user.user_id ≢ tenant_user.user_id)))
      × ((s' : SecurityPrincipal) (t : ℕ)
          → switch_tenant D s user tenant_user groups roles ≡ some s'
          → has_tenant_access s' t ≡ (tenant_user.tenant_id == t))
unfolding switch_tenant has_tenant_access from_tenant_user
switch_tenant-has_tenant_access D s user tenant_user groups roles =
    (ground arith, λ s' t h. ground arith)
