-- ===== src/Rbac.antt =====
-- internal/rbac/rbac.go: the admin plane's roles, its permissions and the tables between them. A role
-- and a permission are texts, as in the source: any text can stand in the role column.
pub mod Tiers
mod Tests
use vault.Common.{
  String, Bool, true, false, ◌||◌, List, [], ◌∷◌, str_eq, if◌then◌else◌, exists, keep,
}

abbrev pub keys_list : String
keys_list = "keys:list"

abbrev pub keys_rotate : String
keys_rotate = "keys:rotate"

abbrev pub keys_revoke : String
keys_revoke = "keys:revoke"

abbrev pub audit_read : String
audit_read = "audit:read"

abbrev pub users_list : String
users_list = "users:list"

abbrev pub users_read : String
users_read = "users:read"

abbrev pub users_lock : String
users_lock = "users:lock"

abbrev pub users_unlock : String
users_unlock = "users:unlock"

abbrev pub users_reset : String
users_reset = "users:reset"

abbrev pub users_ban : String
users_ban = "users:ban"

abbrev pub users_delete : String
users_delete = "users:delete"

abbrev pub users_import : String
users_import = "users:import"

abbrev pub sessions_list : String
sessions_list = "sessions:list"

abbrev pub sessions_revoke : String
sessions_revoke = "sessions:revoke"

abbrev pub clients_list : String
clients_list = "clients:list"

abbrev pub clients_read : String
clients_read = "clients:read"

abbrev pub clients_create : String
clients_create = "clients:create"

abbrev pub clients_revoke : String
clients_revoke = "clients:revoke"

abbrev pub clients_rotate : String
clients_rotate = "clients:rotate"

abbrev pub config_read : String
config_read = "config:read"

abbrev pub config_write : String
config_write = "config:write"

abbrev pub metrics_read : String
metrics_read = "metrics:read"

abbrev pub admins_manage : String
admins_manage = "admins:manage"

abbrev pub admins_create : String
admins_create = "admins:create"

abbrev pub admins_revoke : String
admins_revoke = "admins:revoke"

abbrev pub roles_list : String
roles_list = "roles:list"

abbrev pub roles_create : String
roles_create = "roles:create"

abbrev pub roles_delete : String
roles_delete = "roles:delete"

abbrev pub users_roles : String
users_roles = "users:roles"

abbrev pub email_read : String
email_read = "email:read"

abbrev pub email_write : String
email_write = "email:write"

abbrev pub email_delete : String
email_delete = "email:delete"

abbrev pub role_viewer : String
role_viewer = "viewer"

abbrev pub role_operator : String
role_operator = "operator"

abbrev pub role_super_admin : String
role_super_admin = "super_admin"

unfoldable pub is_valid_role : String → Bool
is_valid_role r = str_eq r role_viewer || str_eq r role_operator || str_eq r role_super_admin

-- A lookup in a map from permissions to true; a missing key is false.
abbrev pub listed : String → List String → Bool
listed p = exists (λ q. str_eq p q)

unfoldable pub viewer_perms : List String
viewer_perms =
    keys_list ∷ audit_read ∷ users_list ∷ users_read ∷ sessions_list ∷ config_read ∷ metrics_read
    ∷ roles_list ∷ email_read ∷ []

unfoldable pub operator_perms : List String
operator_perms =
    keys_rotate ∷ users_lock ∷ users_unlock ∷ users_reset ∷ users_ban ∷ sessions_revoke
    ∷ clients_list ∷ clients_read ∷ []

unfoldable pub super_admin_perms : List String
super_admin_perms =
    keys_revoke ∷ users_delete ∷ clients_create ∷ clients_revoke ∷ clients_rotate ∷ config_write
    ∷ admins_manage ∷ admins_create ∷ admins_revoke ∷ roles_create ∷ roles_delete ∷ users_import
    ∷ users_roles ∷ email_write ∷ email_delete ∷ []

-- The cases of the switch, each falling through to the one below.
abbrev pub viewer_case : String → Bool
viewer_case p = listed p viewer_perms

abbrev pub operator_case : String → Bool
operator_case p = if listed p operator_perms then true else viewer_case p

abbrev pub super_admin_case : String → Bool
super_admin_case p = if listed p super_admin_perms then true else operator_case p

unfoldable pub has_permission : String → String → Bool
has_permission role p =
    if str_eq role role_super_admin
    then super_admin_case p
    else if str_eq role role_operator
    then operator_case p
    else if str_eq role role_viewer
    then viewer_case p
    else false

-- The list that PermissionsForRole goes through.

unfoldable pub vocabulary : List String
vocabulary =
    keys_list ∷ keys_rotate ∷ keys_revoke ∷ audit_read ∷ users_list ∷ users_read ∷ users_lock
    ∷ users_unlock ∷ users_reset ∷ users_ban ∷ users_delete ∷ users_import ∷ users_roles
    ∷ sessions_list ∷ sessions_revoke ∷ clients_list ∷ clients_read ∷ clients_create
    ∷ clients_revoke ∷ clients_rotate ∷ config_read ∷ config_write ∷ metrics_read ∷ admins_manage
    ∷ admins_create ∷ admins_revoke ∷ roles_list ∷ roles_create ∷ roles_delete ∷ email_read
    ∷ email_write ∷ email_delete ∷ []

unfoldable pub permissions_for_role : String → List String
unfolding has_permission
permissions_for_role role = keep (has_permission role) vocabulary
