-- ===== src/Security/Tests.antt =====
-- Grants on which the theorems about access control are applied.
use nanograph.Prelude.{ℕ, [], ◌∷◌, Bool, ◌||◌, ◌≡◌, refl, inr, arith, true, false}
use nanograph.Security.Permission.{table_data_query, implies_iff}
use nanograph.Security.Scope.{
  ResourceScope, tenant, database, table, PermissionGrant, allows_tenant,
}
use nanograph.Security.Principal.{
  Derived, RoleRecord, GroupRecord, SystemUserRecord, TenantUserRecord, SecurityPrincipal, any,
  find_role, from_system_user, from_tenant_user, has_system_permission, has_tenant_permission,
  has_database_permission, has_table_permission, has_index_permission, has_namespace_permission,
  has_function_permission,
}
use nanograph.Security.Principal.Resolution.{
  through_roles, through_groups, resolve_system_grants-any,
}
use nanograph.Security.Principal.Crossing.{role_grants_cross_tenants}
use nanograph.Security.Principal.Isolation.{from_tenant_user_isolation}

-- Reading the data of tables, in a scope.
abbrev reader : ResourceScope → PermissionGrant
reader scope = record { permission = table_data_query; scope = scope }

never_same : (a b : PermissionGrant) → false ≡ true → a ≡ b
never_same a b h = cc

-- Derived implementations to run the resolution with: every text is empty, and no two grants are
-- known to be equal.
abbrev derived : Derived
derived = record { debug = λ g. []; same = λ a b. false; eq_of_same = never_same }

abbrev role_7 : RoleRecord
role_7 = record { id = 7; grants = reader (tenant 1) ∷ [] }

abbrev group_3 : GroupRecord
group_3 = record { id = 3; roles = 7 ∷ 8 ∷ []; grants = [] }

abbrev alice : SystemUserRecord
alice = record {
  user_id = 5;
  username = 97 ∷ [];
  group_ids = 3 ∷ [];
  role_ids = 9 ∷ [];
  grants = [];
}

abbrev alice_of_tenant : TenantUserRecord
alice_of_tenant = record { user_id = 5; tenant_id = 1; group_ids = 3 ∷ []; role_ids = [] }

abbrev on_tenant : ℕ → PermissionGrant → Bool
on_tenant t g = allows_tenant g table_data_query t

resolve_system_grants-any_example :
    any (on_tenant 1) (from_system_user derived alice (group_3 ∷ []) (role_7 ∷ [])).effective_grants
    ≡ ((any (on_tenant 1) [] || through_groups (on_tenant 1) (group_3 ∷ []) (role_7 ∷ []) (3 ∷ []))
        || through_roles (on_tenant 1) (role_7 ∷ []) (9 ∷ []))
resolve_system_grants-any_example =
    resolve_system_grants-any (on_tenant 1) derived alice (group_3 ∷ []) (role_7 ∷ [])

abbrev alice_in_1 : SecurityPrincipal
alice_in_1 = from_tenant_user derived alice alice_of_tenant (group_3 ∷ []) (role_7 ∷ [])

from_tenant_user_isolation_example :
    (has_system_permission alice_in_1 table_data_query ≡ false)
    × (has_tenant_permission alice_in_1 table_data_query 9 ≡ false)
    × (has_database_permission alice_in_1 table_data_query 9 2 ≡ false)
    × (has_table_permission alice_in_1 table_data_query 9 2 3 ≡ false)
    × (has_index_permission alice_in_1 table_data_query 9 2 3 ≡ false)
    × (has_namespace_permission alice_in_1 table_data_query 9 2 3 ≡ false)
    × (has_function_permission alice_in_1 table_data_query 9 2 3 ≡ false)
from_tenant_user_isolation_example =
    from_tenant_user_isolation derived alice alice_of_tenant (group_3 ∷ []) (role_7 ∷ []) 1
      table_data_query 9 2 3 _ _ ((refl, _), _) (omega arith)

-- A role with a grant on the table 7 and one on the database 2.
abbrev role_9 : RoleRecord
role_9 = record { id = 9; grants = reader (table 7) ∷ reader (database 2) ∷ [] }

abbrev bob_of_tenant : TenantUserRecord
bob_of_tenant = record { user_id = 5; tenant_id = 1; group_ids = []; role_ids = 8 ∷ 9 ∷ [] }

abbrev bob_in_1 : SecurityPrincipal
bob_in_1 = from_tenant_user derived alice bob_of_tenant [] (role_7 ∷ role_9 ∷ [])

role_grants_cross_tenants_example :
    (has_table_permission bob_in_1 table_data_query 6 4 7 ≡ true)
    × (has_database_permission bob_in_1 table_data_query 6 2 ≡ true)
    × (has_table_permission bob_in_1 table_data_query 6 2 3 ≡ true)
    × (has_index_permission bob_in_1 table_data_query 6 2 3 ≡ true)
unfolding find_role
role_grants_cross_tenants_example =
    role_grants_cross_tenants derived alice bob_of_tenant [] (role_7 ∷ role_9 ∷ []) 1 9 0 1 role_9
      table_data_query table_data_query 7 2 6 4 3 refl refl refl refl
      ((implies_iff table_data_query table_data_query).1 (inr refl))
