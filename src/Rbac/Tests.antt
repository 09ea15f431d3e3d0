-- ===== src/Rbac/Tests.antt =====
-- The tiers at single permissions.
use vault.Common.{◌≡◌, refl, true, false, ◌&&◌, arith}
use vault.Rbac.{
  has_permission, role_viewer, role_operator, role_super_admin, keys_revoke, users_list,
  viewer_perms, operator_perms, is_valid_role, vocabulary, listed,
}
use vault.Rbac.Tiers.{has_permission_mono}

viewer_reads : has_permission role_viewer users_list ≡ true
unfolding has_permission viewer_perms
viewer_reads = refl

operator_cannot_revoke_keys : has_permission role_operator keys_revoke ≡ false
unfolding has_permission operator_perms viewer_perms
operator_cannot_revoke_keys = refl

has_permission_mono_example : has_permission role_super_admin users_list ≡ true
has_permission_mono_example =
    has_permission_mono role_viewer role_super_admin users_list (omega arith) viewer_reads

near_miss : (is_valid_role "Super_Admin" && listed keys_revoke vocabulary) ≡ false
unfolding is_valid_role
near_miss = refl
