-- ===== src/Api/Users.antt =====
-- The handlers of accounts/views.py on profiles and roles (#7 to #10, #42, #43), with their serializers
-- and the URL converter of accounts/urls.py.
use chamneul.Base.{ℕ, String, Option, none, some, List, ◌==◌, string_Eq, if◌then◌else◌, any, get_or}
use chamneul.Models.{Db, Env}
use chamneul.Models.Accounts.{User, Role, ActiveRole}
use chamneul.Models.Advisors.{AdvisorApplicationStatus}
use chamneul.Common.Errors.{Error}
use chamneul.Common.Exec.{Exec, Result, ok, err, pure, gets, lift, raise, ◌>>=◌, ◌>>◌}
use chamneul.Common.Requests.{Reply, replies, Gate, dispatch}
use chamneul.Accounts.Roles.{held_roles, advisor_status, set_active_role, grant_role, revoke_role}
use chamneul.Accounts.Saving.{ProfilePatch, update_profile, takes_nickname}
use chamneul.Api.Permissions.{authenticated, admins_only}
use chamneul.Api.Sessions.{UserCard, user_card}

pub record UserMe : Type 0 where
  pub card : UserCard
  pub roles : List Role
  pub created_at : ℕ

pub record UserUpdateResult : Type 0 where
  pub user_id : ℕ
  pub email : String
  pub nickname : String
  pub updated_at : ℕ

pub record UserRoles : Type 0 where
  pub roles : List Role
  pub active_role : ActiveRole
  pub advisor_status : Option AdvisorApplicationStatus

pub record ActiveRoleResult : Type 0 where
  pub user_id : ℕ
  pub active_role : ActiveRole
  pub roles : List Role

-- `UserUpdateSerializer.validate_nickname`, on the fields that the framework has read.
abbrev pub checked_nickname : ℕ → ProfilePatch → Option String → Db → Result ProfilePatch
checked_nickname k p none db = ok p
checked_nickname k p (some value) db =
    if any (takes_nickname k value) db.users
    then err (Error.conflict "이미 사용 중인 닉네임입니다." none)
    else ok p

abbrev pub validated_profile : ℕ → Result ProfilePatch → Db → Result ProfilePatch
validated_profile k (err e) db = err e
validated_profile k (ok p) db = checked_nickname k p p.nickname db

-- The choices of `role` in #42, and the validated body.
pub data GrantChoice : Type 0 where
  advisor admin : GrantChoice

unfoldable pub chosen_role : GrantChoice → Role
chosen_role GrantChoice.advisor = Role.advisor
chosen_role GrantChoice.admin = Role.admin

pub record RoleGrantRequest : Type 0 where
  pub role : GrantChoice
  pub reason : String

pub record RoleGrantResult : Type 0 where
  pub user_id : ℕ
  pub roles : List Role
  pub granted_role : Role
  pub granted_at : ℕ
  pub granted_by : ℕ

-- `GrantableRoleConverter`: the segments of a path that resolve, as the roles that they name.
unfoldable pub grantable_role : String → Option Role
grantable_role s =
    if s == "ADMIN" then some Role.admin else if s == "ADVISOR" then some Role.advisor else none

module _ (g : Gate) where
  -- #7
  unfoldable pub get_me : Option User → Exec (Reply UserMe)
  unfolding user_card
  get_me u = dispatch g (authenticated g) u λ user. do
    roles ← gets (held_roles user.id)
    pure (
        replies 200 (record { card = user_card user; roles = roles; created_at = user.created_at }))

  -- #8
  unfoldable pub patch_me : Env → Result ProfilePatch → Option User → Exec (Reply UserUpdateResult)
  patch_me env fields u = dispatch g (authenticated g) u λ user. do
    data_ ← λ db. (validated_profile user.id fields db, db)
    saved ← update_profile env user.id data_
    pure (
        replies 200 (record {
          user_id = saved.id;
          email = saved.email;
          nickname = saved.nickname;
          updated_at = saved.updated_at;
        }))

  -- #9
  unfoldable pub get_my_roles : Option User → Exec (Reply UserRoles)
  get_my_roles u = dispatch g (authenticated g) u λ user. do
    roles ← gets (held_roles user.id)
    status ← gets (advisor_status user.id)
    pure (
        replies 200
          (record { roles = roles; active_role = user.active_role; advisor_status = status }))

  -- #10: the service sets the role on the user of the request too.
  unfoldable pub patch_active_role :
      Env → Result ActiveRole → Option User → Exec (Reply ActiveRoleResult)
  patch_active_role env serializer u = dispatch g (authenticated g) u λ user. do
    target ← lift serializer
    set_active_role env user.id target
    roles ← gets (held_roles user.id)
    pure (replies 200 (record { user_id = user.id; active_role = target; roles = roles }))

  -- #42
  unfoldable pub post_user_role :
      Env → ℕ → Result RoleGrantRequest → Option User → Exec (Reply RoleGrantResult)
  unfolding chosen_role
  post_user_role env user_id serializer u = dispatch g admins_only u λ user. do
    data_ ← lift serializer
    made ← grant_role env user_id (chosen_role data_.role) user.id data_.reason
    roles ← gets (held_roles made.0.id)
    pure (
        replies 201 (record {
          user_id = made.0.id;
          roles = roles;
          granted_role = made.1.role;
          granted_at = made.1.acted_at;
          granted_by = made.1.acted_by;
        }))

  abbrev pub revoke_resolved :
      Env → ℕ → Option String → Option User → Option Role → Exec (Reply (Unit {0}))
  revoke_resolved env user_id reason u none = raise (Error.not_found "")
  revoke_resolved env user_id reason u (some role) =
      dispatch g admins_only u
        λ user. do revoke_role env user_id role user.id (get_or reason ""); pure (replies 204 tt)

  -- #43: a segment that names no grantable role matches no route.
  unfoldable pub delete_user_role :
      Env → ℕ → String → Option String → Option User → Exec (Reply (Unit {0}))
  unfolding grantable_role
  delete_user_role env user_id segment reason u =
      revoke_resolved env user_id reason u (grantable_role segment)
