-- ===== src/Api/Hidden.antt =====
-- What responses do not tell: the fields that the serializers of concerns/, advisors/, advice/ and
-- notifications/ leave out.
use chamneul.Base.{
  ℕ, String, ◌≡◌, refl, ap, ◌∙◌, Bool, true, Option, none, some, List, [], ◌∷◌, nat_eq, nat_eq_iff,
  arith, filter, find?, map, Option-cases, inl, inr,
}
use mathlib.Core.Option
use chamneul.Base.Rows.{find?-sound}
use chamneul.Models.{Db}
use chamneul.Models.Accounts.{User}
use chamneul.Models.Advisors.{AdvisorApplication, IntendedLane}
use chamneul.Models.Concerns.{Concern}
use chamneul.Models.Notifications.{Notification}
use chamneul.Common.Errors.{Error}
use chamneul.Common.Exec.{no_match, Exec, Result, ok, err, answer, pure, ◌>>=◌}
use chamneul.Common.Requests.{Reply, replies, Permission, Gate, grants, dispatch, admitted, run_as}
use chamneul.Accounts.Roles.{latest}
use chamneul.Concerns.{concern_pk}
use chamneul.Concerns.Reading.{
  is_in_queue, get_assigned_concern, assigned_concern_detail_view_data, requester_display_name,
  my_advice_view_data,
}
use chamneul.Notifications.{is_mine, get_my_notification}
use chamneul.Api.Permissions.{authenticated, advisors_only}
use chamneul.Api.Assigned.{get_assigned_concern_view}
use chamneul.Api.Advisors.{get_my_application, my_application, application_me}
use chamneul.Api.Notifications.{
  NotificationDetail, get_notification, notification_detail, notification_row,
}

module _ {ℓ} {A : Type ℓ} (p : A → Bool) (h : A → A) (same : (x : A) → p (h x) ≡ p x) where
  find?-map : (xs : List A) → find? p (map h xs) ≡ Option.map h (find? p xs)
  find?-map [] = refl
  find?-map (x ∷ xs) = ground (arith, find?-map xs, same x)

  filter-map : (xs : List A) → filter p (map h xs) ≡ map h (filter p xs)
  filter-map [] = refl
  filter-map (x ∷ xs) = ground (arith, filter-map xs, same x)

-- The answers of a view on two databases, from those of its handler.
module _ {A : Type 0} (g : Gate) (ps : List Permission) (handler : User → Exec A) (db db' : Db)
    (same : (user : User) → answer (handler user db') ≡ answer (handler user db)) where
  admitted_same :
      (o : Option Error) (u : Option User)
      → answer (admitted o (run_as u handler) db') ≡ answer (admitted o (run_as u handler) db)
  admitted_same none none = refl
  admitted_same none (some u) = same u
  admitted_same (some e) u = refl

  dispatch_same :
      (u : Option User)
      → grants u db' ps ≡ grants u db ps
      → answer (dispatch g ps u handler db') ≡ answer (dispatch g ps u handler db)
  unfolding dispatch
  dispatch_same u h = rw h (admitted_same (g.check_permissions u (grants u db ps)) u)

-- An application with another lane, and all of them with other lanes.
abbrev pub in_lane : (ℕ → IntendedLane) → AdvisorApplication → AdvisorApplication
in_lane lane a = record a { intended_lane = lane a.id }

abbrev pub with_lanes : (ℕ → IntendedLane) → Db → Db
with_lanes lane db = record db { applications = map (in_lane lane) db.applications }

latest-in_lane :
    (lane : ℕ → IntendedLane) (rows : List AdvisorApplication)
    → latest (map (in_lane lane) rows) ≡ Option.map (in_lane lane) (latest rows)
latest-in_lane lane [] = refl
latest-in_lane lane (a ∷ rows) = elim (Option-cases (latest rows)) [
  | inl last ↦ ground (arith, latest-in_lane lane rows)
  | inr (b, e) ↦ ground (arith, latest-in_lane lane rows)
]

my_application_same :
    (lane : ℕ → IntendedLane) (o : Option AdvisorApplication)
    → my_application (Option.map (in_lane lane) o) ≡ my_application o
unfolding my_application application_me
my_application_same lane none = refl
my_application_same lane (some a) = refl

-- A notification caused by another user, with another payload, and all of them so.
abbrev pub caused : (ℕ → Option ℕ) → (ℕ → List (String × ℕ)) → Notification → Notification
caused actor payload n = record n { actor_user = actor n.id; payload = payload n.id }

abbrev pub with_causes : (ℕ → Option ℕ) → (ℕ → List (String × ℕ)) → Db → Db
with_causes actor payload db = record db {
  notifications = map (caused actor payload) db.notifications;
}

abbrev shown : Option Notification → Result (Reply NotificationDetail)
shown none = err (no_match "Notification")
shown (some n) = ok (replies 200 (notification_detail n))

module _ (g : Gate) (u : Option User) (db : Db) where
  -- The answer of #12 does not depend on the intended lanes of the applications: it is the same
  -- whatever they are, for any user of the request.
  pub get_my_application_lane :
      (lane : ℕ → IntendedLane)
      → answer (get_my_application g u (with_lanes lane db)) ≡ answer (get_my_application g u db)
  unfolding get_my_application
  get_my_application_lane lane =
      dispatch_same g (authenticated g) _ db (with_lanes lane db)
        (λ user.
          ap (λ r. ok r)
            (ap (λ rows. my_application (latest rows))
                (filter-map (λ a. nat_eq a.applicant user.id) (in_lane lane) (λ x. refl)
                  db.applications)
              ∙ ap my_application
                  (latest-in_lane lane (filter (λ a. nat_eq a.applicant user.id) db.applications))
              ∙ my_application_same lane
                  (latest (filter (λ a. nat_eq a.applicant user.id) db.applications))))
        u refl

  shown-answer :
      (k : ℕ) (user : User) (rows : Db)
      → answer
          ((get_my_notification user.id k >>= λ n. pure (replies 200 (notification_detail n))) rows)
        ≡ shown (find? (is_mine user.id k) rows.notifications)
  unfolding get_my_notification
  shown-answer k user rows = ground arith

  -- Nor are the actor and the payload of a notification part of what its recipient is shown.
  get_notification_actor :
      (k : ℕ) (actor : ℕ → Option ℕ) (payload : ℕ → List (String × ℕ))
      → answer (get_notification g k u (with_causes actor payload db))
        ≡ answer (get_notification g k u db)
  unfolding get_notification notification_detail notification_row
  get_notification_actor k actor payload =
      dispatch_same g (authenticated g) _ db (with_causes actor payload db)
        (λ user. ground (
          arith,
          shown-answer k user db,
          shown-answer k user (with_causes actor payload db),
          find?-map (is_mine user.id k) (caused actor payload) (λ x. refl) db.notifications,
        ))
        u refl

  -- The answer of #21 for a concern that is there and anonymous does not depend on the rows of
  -- users: it is the same whatever they are, for any user of the request.
  pub get_assigned_concern_view_anonymous :
      (k : ℕ) (c : Concern) (users : List User)
      → find? (concern_pk k) db.concerns ≡ some c
      → c.is_anonymous ≡ true
      → answer (get_assigned_concern_view g k u (record db { users = users }))
        ≡ answer (get_assigned_concern_view g k u db)
  unfolding get_assigned_concern_view get_assigned_concern assigned_concern_detail_view_data
      requester_display_name my_advice_view_data
  get_assigned_concern_view_anonymous k c users e anonymous =
      dispatch_same g (advisors_only g) _ db (record db { users = users })
        (λ user. elim (Option-cases (find? (is_in_queue user.id k db) db.assignments)) [
          | inl missing ↦ ground arith
          | inr (r, f) ↦
              let key = find?-sound (is_in_queue user.id k db) db.assignments r f in
              let same : r.concern ≡ k = (nat_eq_iff r.concern k).0 (ground arith) in
              ground (arith, same)
        ])
        u refl
