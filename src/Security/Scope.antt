-- ===== src/Security/Scope.antt =====
-- `ResourceScope` and `PermissionGrant` (nanograph-core/src/object/security/permission.rs). The
-- identifiers of resources are numbers.
use nanograph.Prelude.{ℕ, ◌≡◌, ◌≢◌, arith, Bool, true, false, ◌&&◌, ◌==◌}
use nanograph.Security.Permission.{Permission, implies}

pub data ResourceScope : Type 0 where
  system : ResourceScope
  tablespace : ℕ → ResourceScope
  all_tablespaces : ResourceScope
  tenant : ℕ → ResourceScope
  all_tenants : ResourceScope
  database : ℕ → ResourceScope
  all_databases : ResourceScope
  namespace : ℕ → ResourceScope
  all_namespaces : ResourceScope
  table : ℕ → ResourceScope
  all_tables : ResourceScope
  function : ℕ → ResourceScope
  all_functions : ResourceScope
  index : ℕ → ResourceScope
  all_indexes : ResourceScope

unfoldable pub matches_system : ResourceScope → Bool
matches_system system = true
matches_system _ = false

unfoldable pub matches_tablespace : ResourceScope → ℕ → Bool
matches_tablespace system tablespace_id = true
matches_tablespace all_tablespaces tablespace_id = true
matches_tablespace (tablespace id) tablespace_id = id == tablespace_id
matches_tablespace _ tablespace_id = false

unfoldable pub matches_tenant : ResourceScope → ℕ → Bool
matches_tenant system tenant_id = true
matches_tenant all_tenants tenant_id = true
matches_tenant (tenant id) tenant_id = id == tenant_id
matches_tenant _ tenant_id = false

unfoldable pub matches_database : ResourceScope → ℕ → ℕ → Bool
matches_database system tenant_id database_id = true
matches_database all_databases tenant_id database_id = true
matches_database all_tenants tenant_id database_id = true
matches_database (tenant tid) tenant_id database_id = tid == tenant_id
matches_database (database did) tenant_id database_id = did == database_id
matches_database _ tenant_id database_id = false

unfoldable pub matches_table : ResourceScope → ℕ → ℕ → ℕ → Bool
matches_table system tenant_id database_id table_id = true
matches_table all_tables tenant_id database_id table_id = true
matches_table all_databases tenant_id database_id table_id = true
matches_table all_tenants tenant_id database_id table_id = true
matches_table (tenant tid) tenant_id database_id table_id = tid == tenant_id
matches_table (database did) tenant_id database_id table_id = did == database_id
matches_table (table tid) tenant_id database_id table_id = tid == table_id
matches_table _ tenant_id database_id table_id = false

unfoldable pub matches_index : ResourceScope → ℕ → ℕ → ℕ → Bool
matches_index system tenant_id database_id index_id = true
matches_index all_tables tenant_id database_id index_id = true
matches_index all_databases tenant_id database_id index_id = true
matches_index all_tenants tenant_id database_id index_id = true
matches_index (tenant tid) tenant_id database_id index_id = tid == tenant_id
matches_index (database did) tenant_id database_id index_id = did == database_id
matches_index (index iid) tenant_id database_id index_id = iid == index_id
matches_index _ tenant_id database_id index_id = false

unfoldable pub matches_namespace : ResourceScope → ℕ → ℕ → ℕ → Bool
matches_namespace system tenant_id database_id namespace_id = true
matches_namespace all_namespaces tenant_id database_id namespace_id = true
matches_namespace all_databases tenant_id database_id namespace_id = true
matches_namespace all_tenants tenant_id database_id namespace_id = true
matches_namespace (tenant tid) tenant_id database_id namespace_id = tid == tenant_id
matches_namespace (database did) tenant_id database_id namespace_id = did == database_id
matches_namespace (namespace nid) tenant_id database_id namespace_id = nid == namespace_id
matches_namespace _ tenant_id database_id namespace_id = false

unfoldable pub matches_function : ResourceScope → ℕ → ℕ → ℕ → Bool
matches_function system tenant_id database_id function_id = true
matches_function all_functions tenant_id database_id function_id = true
matches_function all_databases tenant_id database_id function_id = true
matches_function all_tenants tenant_id database_id function_id = true
matches_function (tenant tid) tenant_id database_id function_id = tid == tenant_id
matches_function (database did) tenant_id database_id function_id = did == database_id
matches_function (function fid) tenant_id database_id function_id = fid == function_id
matches_function _ tenant_id database_id function_id = false

pub record PermissionGrant : Type 0 where
  pub permission : Permission
  pub scope : ResourceScope

unfoldable pub allows_system : PermissionGrant → Permission → Bool
allows_system g permission = implies g.permission permission && matches_system g.scope

unfoldable pub allows_tablespace : PermissionGrant → Permission → ℕ → Bool
allows_tablespace g permission tablespace_id =
    implies g.permission permission && matches_tablespace g.scope tablespace_id

unfoldable pub allows_tenant : PermissionGrant → Permission → ℕ → Bool
allows_tenant g permission tenant_id =
    implies g.permission permission && matches_tenant g.scope tenant_id

unfoldable pub allows_database : PermissionGrant → Permission → ℕ → ℕ → Bool
allows_database g permission tenant_id database_id =
    implies g.permission permission && matches_database g.scope tenant_id database_id

unfoldable pub allows_table : PermissionGrant → Permission → ℕ → ℕ → ℕ → Bool
allows_table g permission tenant_id database_id table_id =
    implies g.permission permission && matches_table g.scope tenant_id database_id table_id

unfoldable pub allows_index : PermissionGrant → Permission → ℕ → ℕ → ℕ → Bool
allows_index g permission tenant_id database_id index_id =
    implies g.permission permission && matches_index g.scope tenant_id database_id index_id

unfoldable pub allows_namespace : PermissionGrant → Permission → ℕ → ℕ → ℕ → Bool
allows_namespace g permission tenant_id database_id namespace_id =
    implies g.permission permission && matches_namespace g.scope tenant_id database_id namespace_id

unfoldable pub allows_function : PermissionGrant → Permission → ℕ → ℕ → ℕ → Bool
allows_function g permission tenant_id database_id function_id =
    implies g.permission permission && matches_function g.scope tenant_id database_id function_id

-- A scope that covers a tenant covers every database in it.
tenant_covers :
    (s : ResourceScope) (t d : ℕ) → matches_tenant s t ≡ true → matches_database s t d ≡ true
unfolding matches_tenant matches_database
tenant_covers s t d h = ground arith

-- A scope that covers a database covers every table, index, namespace and function in it.
database_covers :
    (s : ResourceScope) (t d x : ℕ)
    → matches_database s t d ≡ true
    → (matches_table s t d x ≡ true)
      × (matches_index s t d x ≡ true)
      × (matches_namespace s t d x ≡ true)
      × (matches_function s t d x ≡ true)
unfolding matches_database matches_table matches_index matches_namespace matches_function
database_covers s t d x h = ground arith

-- A grant on a tenant holds on every database of it, and a grant on a database on every table,
-- index, namespace and function in it, for the same permissions.
pub grants_descend :
    (g : PermissionGrant) (p : Permission) (t d x : ℕ)
    → (allows_tenant g p t ≡ true → allows_database g p t d ≡ true)
      × (allows_database g p t d ≡ true
          → (allows_table g p t d x ≡ true)
            × (allows_index g p t d x ≡ true)
            × (allows_namespace g p t d x ≡ true)
            × (allows_function g p t d x ≡ true))
unfolding allows_tenant allows_database allows_table allows_index allows_namespace allows_function
grants_descend g p t d x = (
  λ h. ground (arith, tenant_covers g.scope t d),
  λ h. ground (arith, database_covers g.scope t d x),
)

-- A grant scoped to one tenant holds in no other tenant.
pub tenant_isolation :
    (g : PermissionGrant) (p : Permission) (own t d x : ℕ)
    → g.scope ≡ tenant own
    → own ≢ t
    → (allows_system g p ≡ false)
      × (allows_tenant g p t ≡ false)
      × (allows_database g p t d ≡ false)
      × (allows_table g p t d x ≡ false)
      × (allows_index g p t d x ≡ false)
      × (allows_namespace g p t d x ≡ false)
      × (allows_function g p t d x ≡ false)
unfolding allows_system allows_tenant allows_database allows_table allows_index allows_namespace
    allows_function matches_system matches_tenant matches_database matches_table matches_index
    matches_namespace matches_function
tenant_isolation g p own t d x e n = ground arith

-- A grant on all indexes holds on nothing, an index neither; the indexes are covered by the grants on
-- all tables.
pub all_indexes_grants_nothing :
    (g : PermissionGrant) (p : Permission) (t d x : ℕ)
    → g.scope ≡ all_indexes
    → (allows_index g p t d x ≡ false)
      × (allows_table g p t d x ≡ false)
      × (allows_namespace g p t d x ≡ false)
      × (allows_function g p t d x ≡ false)
      × (allows_database g p t d ≡ false)
      × (allows_tenant g p t ≡ false)
      × (allows_tablespace g p x ≡ false)
      × (allows_system g p ≡ false)
      × (allows_index (record g { scope = all_tables }) p t d x ≡ implies g.permission p)
unfolding allows_system allows_tablespace allows_tenant allows_database allows_table allows_index
    allows_namespace allows_function matches_system matches_tablespace matches_tenant
    matches_database matches_table matches_index matches_namespace matches_function
all_indexes_grants_nothing g p t d x e = ground arith
