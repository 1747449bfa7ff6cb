-- ===== src/Security/Principal.antt =====
-- `SecurityPrincipal` of nanograph-core/src/object/security/principal.rs with the records that it
-- resolves: users (user.rs), groups (group.rs) and roles (role.rs) of nanograph-core. System and
-- tenant groups have the same fields, and so have the roles; of every record the model has the
-- fields that the resolution reads. `sort_by_key` is an insertion sort, as any stable sort returns
-- the same; the derived Debug text and the derived equality of grants are a parameter.
pub mod Resolution
pub mod Isolation
pub mod Crossing
use Prim.Native.Nat.Ordering.{lt, eq, gt}
use nanograph.Prelude.{
  ℕ, ◌≡◌, Option, none, some, List, [], ◌∷◌, ◌++◌, Bool, true, false, not, ◌&&◌, ◌||◌, ◌==◌,
  if◌then◌else◌,
}
use nanograph.Bytes.{Bytes, cmp}
use nanograph.Security.Permission.{Permission, implies, global_superuser}
use nanograph.Security.Scope.{
  PermissionGrant, allows_system, allows_tablespace, allows_tenant, allows_database, allows_table,
  allows_index, allows_namespace, allows_function,
}

-- What `derive` makes for `PermissionGrant`: the text of a grant, and equality.
pub record Derived : Type 0 where
  pub debug : PermissionGrant → Bytes
  pub same : PermissionGrant → PermissionGrant → Bool
  pub eq_of_same : (a b : PermissionGrant) → same a b ≡ true → a ≡ b

pub record RoleRecord : Type 0 where
  pub id : ℕ
  pub grants : List PermissionGrant

pub record GroupRecord : Type 0 where
  pub id : ℕ
  pub roles : List ℕ
  pub grants : List PermissionGrant

pub record SystemUserRecord : Type 0 where
  pub user_id : ℕ
  pub username : Bytes
  pub group_ids : List ℕ
  pub role_ids : List ℕ
  pub grants : List PermissionGrant

pub record TenantUserRecord : Type 0 where
  pub user_id : ℕ
  pub tenant_id : ℕ
  pub group_ids : List ℕ
  pub role_ids : List ℕ

pub record SecurityPrincipal : Type 0 where
  pub user_id : ℕ
  pub username : Bytes
  pub tenant_id : Option ℕ
  pub effective_grants : List PermissionGrant

unfoldable pub find_role : List RoleRecord → ℕ → Option RoleRecord
find_role [] id = none
find_role (r ∷ rs) id = if r.id == id then some r else find_role rs id

unfoldable pub find_group : List GroupRecord → ℕ → Option GroupRecord
find_group [] id = none
find_group (g ∷ gs) id = if g.id == id then some g else find_group gs id

-- The loop over role ids.
unfoldable pub role_grants : List RoleRecord → List ℕ → List PermissionGrant
unfolding find_role
role_grants roles [] = []
role_grants roles (id ∷ ids) =
    let rest = role_grants roles ids in
    elim (find_role roles id) [ none ↦ rest | some r ↦ r.grants ++ rest ]

-- The loop over group ids.
unfoldable pub group_grants : List GroupRecord → List RoleRecord → List ℕ → List PermissionGrant
unfolding find_group role_grants
group_grants groups roles [] = []
group_grants groups roles (id ∷ ids) =
    let rest = group_grants groups roles ids in
    elim (find_group groups id) [
      | none ↦ rest
      | some g ↦ (g.grants ++ role_grants roles g.roles) ++ rest
    ]

unfoldable pub insert_by_key :
    Derived → PermissionGrant → List PermissionGrant → List PermissionGrant
insert_by_key D g [] = g ∷ []
insert_by_key D g (x ∷ xs) =
    let rest = insert_by_key D g xs in
    elim (cmp (D.debug g) (D.debug x)) [ gt ↦ x ∷ rest | _ ↦ g ∷ x ∷ xs ]

unfoldable pub sort_by_key : Derived → List PermissionGrant → List PermissionGrant
unfolding insert_by_key
sort_by_key D [] = []
sort_by_key D (g ∷ gs) = insert_by_key D g (sort_by_key D gs)

-- `dedup` behind an element that is kept: equal neighbours go.
unfoldable pub dedup_from : Derived → PermissionGrant → List PermissionGrant → List PermissionGrant
dedup_from D kept [] = []
dedup_from D kept (x ∷ xs) =
    let drop = dedup_from D kept xs in
    let keep = x ∷ dedup_from D x xs in if D.same x kept then drop else keep

unfoldable pub dedup : Derived → List PermissionGrant → List PermissionGrant
unfolding dedup_from
dedup D [] = []
dedup D (x ∷ xs) = x ∷ dedup_from D x xs

unfoldable pub resolve_system_grants :
    Derived → SystemUserRecord → List GroupRecord → List RoleRecord → List PermissionGrant
resolve_system_grants D user groups roles = dedup D (
    sort_by_key D (
      (user.grants ++ group_grants groups roles user.group_ids) ++ role_grants roles user.role_ids))

unfoldable pub resolve_tenant_grants :
    Derived
    → SystemUserRecord
    → TenantUserRecord
    → List GroupRecord
    → List RoleRecord
    → List PermissionGrant
resolve_tenant_grants D user tenant_user groups roles = dedup D (
    sort_by_key D (
      (user.grants ++ group_grants groups roles tenant_user.group_ids)
      ++ role_grants roles tenant_user.role_ids))

unfoldable pub from_system_user :
    Derived → SystemUserRecord → List GroupRecord → List RoleRecord → SecurityPrincipal
from_system_user D user groups roles = record {
  user_id = user.user_id;
  username = user.username;
  tenant_id = none;
  effective_grants = resolve_system_grants D user groups roles;
}

unfoldable pub from_tenant_user :
    Derived
    → SystemUserRecord
    → TenantUserRecord
    → List GroupRecord
    → List RoleRecord
    → SecurityPrincipal
from_tenant_user D user tenant_user groups roles = record {
  user_id = user.user_id;
  username = user.username;
  tenant_id = some tenant_user.tenant_id;
  effective_grants = resolve_tenant_grants D user tenant_user groups roles;
}

unfoldable pub from_hybrid_user :
    Derived
    → SystemUserRecord
    → List GroupRecord
    → List RoleRecord
    → TenantUserRecord
    → List GroupRecord
    → List RoleRecord
    → SecurityPrincipal
from_hybrid_user D user groups roles tenant_user tenant_groups tenant_roles = record {
  user_id = user.user_id;
  username = user.username;
  tenant_id = some tenant_user.tenant_id;
  effective_grants = dedup D (
      sort_by_key D (
        resolve_system_grants D user groups roles
        ++ resolve_tenant_grants D user tenant_user tenant_groups tenant_roles));
}

-- A failed assertion is `none`.
unfoldable pub switch_tenant :
    Derived
    → SecurityPrincipal
    → SystemUserRecord
    → TenantUserRecord
    → List GroupRecord
    → List RoleRecord
    → Option SecurityPrincipal
switch_tenant D principal user tenant_user groups roles =
    if not (principal.user_id == user.user_id)
    then none
    else if not (user.user_id == tenant_user.user_id)
    then none
    else some (from_tenant_user D user tenant_user groups roles)

unfoldable pub any : (PermissionGrant → Bool) → List PermissionGrant → Bool
any p [] = false
any p (g ∷ gs) = p g || any p gs

unfoldable pub has_permission : SecurityPrincipal → Permission → Bool
has_permission s p = any (λ g. implies g.permission p) s.effective_grants

unfoldable pub is_superuser : SecurityPrincipal → Bool
is_superuser s = has_permission s global_superuser

unfoldable pub has_tenant_access : SecurityPrincipal → ℕ → Bool
has_tenant_access s tenant_id = elim s.tenant_id [
  | none ↦ is_superuser s
  | some own ↦ own == tenant_id
]

unfoldable pub has_system_permission : SecurityPrincipal → Permission → Bool
has_system_permission s p = any (λ g. allows_system g p) s.effective_grants

unfoldable pub has_tablespace_permission : SecurityPrincipal → Permission → ℕ → Bool
has_tablespace_permission s p x = any (λ g. allows_tablespace g p x) s.effective_grants

unfoldable pub has_tenant_permission : SecurityPrincipal → Permission → ℕ → Bool
has_tenant_permission s p t = any (λ g. allows_tenant g p t) s.effective_grants

unfoldable pub has_database_permission : SecurityPrincipal → Permission → ℕ → ℕ → Bool
has_database_permission s p t d = any (λ g. allows_database g p t d) s.effective_grants

unfoldable pub has_table_permission : SecurityPrincipal → Permission → ℕ → ℕ → ℕ → Bool
has_table_permission s p t d x = any (λ g. allows_table g p t d x) s.effective_grants

unfoldable pub has_index_permission : SecurityPrincipal → Permission → ℕ → ℕ → ℕ → Bool
has_index_permission s p t d x = any (λ g. allows_index g p t d x) s.effective_grants

unfoldable pub has_namespace_permission : SecurityPrincipal → Permission → ℕ → ℕ → ℕ → Bool
has_namespace_permission s p t d x = any (λ g. allows_namespace g p t d x) s.effective_grants

unfoldable pub has_function_permission : SecurityPrincipal → Permission → ℕ → ℕ → ℕ → Bool
has_function_permission s p t d x = any (λ g. allows_function g p t d x) s.effective_grants
