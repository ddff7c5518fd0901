-- ===== src/Api/Writers.antt =====
-- The services that write neither concerns nor assignments.
use chamneul.Base.{ℕ, String, refl, Bool, Option, inl, inr}
use chamneul.Models.{Db, Env}
use chamneul.Models.Accounts.{User, UserRole, RoleGrant, Role, ActiveRole}
use chamneul.Models.Advice.{
  Advice, AdviceHistory, AdviceStatus, Feedback, FeedbackStatus, advice_status_Eq,
}
use chamneul.Models.Advisors.{AdvisorApplication, AdvisorApplicationStatus}
use chamneul.Models.Notifications.{Notification}
use chamneul.Common.Exec.{after}
use chamneul.Accounts.Roles.{
  create_user_role, create_role_grant, set_active_role, grant_role, guard_admin, revoke_role,
}
use chamneul.Accounts.Roles.Effects.{revoke_user_refused, revoke_advisor_cases, revoke_admin_cases}
use chamneul.Accounts.Saving.{ProfilePatch, save_profile, update_profile}
use chamneul.Notifications.{create_notification, get_my_notification, mark_read}
use chamneul.Advisors.{
  ApplicationCreate, insert_application, create_application, get_or_create_role, decision_effects,
  review_application,
}
use chamneul.Advice.{
  AdviceCreate, AdvicePatch, insert_advice, create_advice, lock_own_advice, insert_history,
  update_advice, delete_advice,
}
use chamneul.Feedback.{
  FeedbackCreate, insert_feedback, create_feedback, get_feedback, move_feedback,
  transition_feedback,
}
use chamneul.Api.Aside.{AreKept, IsAside, aside, if-kept}

insert_application-IsAside : (a : AdvisorApplication) → IsAside (insert_application a)
unfolding insert_application
insert_application-IsAside a = record { keeps = λ db. if-kept _ db _ _ (refl, refl) (refl, refl) }

insert_advice-IsAside : (a : Advice) → IsAside (insert_advice a)
unfolding insert_advice
insert_advice-IsAside a = record { keeps = λ db. if-kept _ db _ _ (refl, refl) (refl, refl) }

insert_history-IsAside : (h : AdviceHistory) → IsAside (insert_history h)
unfolding insert_history
insert_history-IsAside h = record { keeps = λ db. if-kept _ db _ _ (refl, refl) (refl, refl) }

insert_feedback-IsAside : (f : Feedback) → IsAside (insert_feedback f)
unfolding insert_feedback
insert_feedback-IsAside f = record { keeps = λ db. if-kept _ db _ _ (refl, refl) (refl, refl) }

create_user_role-IsAside : (r : UserRole) → IsAside (create_user_role r)
unfolding create_user_role
create_user_role-IsAside r = record { keeps = λ db. if-kept _ db _ _ (refl, refl) (refl, refl) }

create_role_grant-IsAside : (r : RoleGrant) → IsAside (create_role_grant r)
unfolding create_role_grant
create_role_grant-IsAside r = record { keeps = λ db. (refl, refl) }

create_notification-IsAside : (n : Notification) → IsAside (create_notification n)
unfolding create_notification
create_notification-IsAside n = record { keeps = λ db. (refl, refl) }

guard_admin-IsAside : (target actor : ℕ) → IsAside (guard_admin target actor)
unfolding guard_admin
guard_admin-IsAside target actor = search aside depth 9

module _ (env : Env) where
  pub set_active_role-IsAside :
      (user : ℕ) (target : ActiveRole) → IsAside (set_active_role env user target)
  unfolding set_active_role
  set_active_role-IsAside user target = search aside depth 9

  pub grant_role-IsAside :
      (k : ℕ) (role : Role) (actor : ℕ) (reason : String)
      → IsAside (grant_role env k role actor reason)
  unfolding grant_role
  grant_role-IsAside k role actor reason =
      search (aside, create_user_role-IsAside, create_role_grant-IsAside) depth 12

  revoke_role_kept :
      (k : ℕ) (role : Role) (actor : ℕ) (reason : String) (db : Db)
      → AreKept db (after (revoke_role env k role actor reason db))
  revoke_role_kept k Role.user actor reason db =
      rw (revoke_user_refused env k actor reason db) (refl, refl)
  revoke_role_kept k Role.advisor actor reason db =
      elim (revoke_advisor_cases env k actor reason db) [
        | inl same ↦ rw same (refl, refl)
        | inr (u, e, held, wrote) ↦ rw wrote (refl, refl)
      ]
  revoke_role_kept k Role.admin actor reason db = elim (revoke_admin_cases env k actor reason db) [
    | inl same ↦ rw same (refl, refl)
    | inr (u, e, held, passed, wrote) ↦ rw wrote (refl, refl)
  ]

  pub revoke_role-IsAside :
      (k : ℕ) (role : Role) (actor : ℕ) (reason : String)
      → IsAside (revoke_role env k role actor reason)
  revoke_role-IsAside k role actor reason = record { keeps = revoke_role_kept k role actor reason }

  save_profile-IsAside : (p : ProfilePatch) (u : User) → IsAside (save_profile env p u)
  unfolding save_profile
  save_profile-IsAside p u = record { keeps = λ db. if-kept _ db _ _ (refl, refl) (refl, refl) }

  pub update_profile-IsAside : (k : ℕ) (p : ProfilePatch) → IsAside (update_profile env k p)
  unfolding update_profile
  update_profile-IsAside k p = search (aside, save_profile-IsAside) depth 12

  pub create_application-IsAside :
      (k : ℕ) (d : ApplicationCreate) → IsAside (create_application env k d)
  unfolding create_application
  create_application-IsAside k d = search (aside, insert_application-IsAside) depth 12

  get_or_create_role-IsAside : (k : ℕ) → IsAside (get_or_create_role env k)
  unfolding get_or_create_role
  get_or_create_role-IsAside k = search (aside, create_user_role-IsAside) depth 9

  decision_effects-IsAside :
      (target : AdvisorApplicationStatus) (actor : ℕ) (reason : String) (a : AdvisorApplication)
      → IsAside (decision_effects env target actor reason a)
  unfolding decision_effects
  decision_effects-IsAside target actor reason a =
      search
        (aside, get_or_create_role-IsAside, create_role_grant-IsAside, create_notification-IsAside)
        depth 9

  pub review_application-IsAside :
      (k actor : ℕ) (target : AdvisorApplicationStatus) (reason : String)
      → IsAside (review_application env k actor target reason)
  unfolding review_application
  review_application-IsAside k actor target reason =
      search (aside, decision_effects-IsAside) depth 14

  pub create_advice-IsAside :
      (k advisor : ℕ) (d : AdviceCreate) → IsAside (create_advice env k advisor d)
  unfolding create_advice
  create_advice-IsAside k advisor d = search (aside, insert_advice-IsAside) depth 12

  lock_own_advice-IsAside :
      (k actor : ℕ) (allowed : AdviceStatus → Bool) → IsAside (lock_own_advice k actor allowed)
  unfolding lock_own_advice
  lock_own_advice-IsAside k actor allowed = search aside depth 9

  pub update_advice-IsAside :
      (k actor : ℕ) (p : AdvicePatch) → IsAside (update_advice env k actor p)
  unfolding update_advice
  update_advice-IsAside k actor p =
      search (aside, lock_own_advice-IsAside, insert_history-IsAside) depth 12

  pub delete_advice-IsAside : (k actor : ℕ) → IsAside (delete_advice k actor)
  unfolding delete_advice
  delete_advice-IsAside k actor = search (aside, lock_own_advice-IsAside) depth 9

  pub create_feedback-IsAside :
      (k author : ℕ) (d : FeedbackCreate) → IsAside (create_feedback env k author d)
  unfolding create_feedback
  create_feedback-IsAside k author d = search (aside, insert_feedback-IsAside) depth 16

  pub transition_feedback-IsAside :
      (k actor : ℕ) (to : FeedbackStatus) (memo : Option String)
      → IsAside (transition_feedback env k actor to memo)
  unfolding transition_feedback get_feedback move_feedback
  transition_feedback-IsAside k actor to memo = search aside depth 12

  pub mark_read-IsAside : (user k : ℕ) → IsAside (mark_read env user k)
  unfolding mark_read get_my_notification
  mark_read-IsAside user k = search aside depth 12
