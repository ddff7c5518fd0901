-- ===== src/Advisors/Review.antt =====
-- `review_application` of advisors/services.py, case by case.
use chamneul.Base.{
  ℕ, String, ◌≡◌, refl, ap, Bool, true, false, none, some, [], ◌∷◌, ◌++◌, ◌&&◌, not, ◌==◌, arith,
  ◌⊎◌, inl, inr, if◌then◌else◌, find?, update, Bool-cases, Option-cases, is_blank,
}
use chamneul.Base.Rows.{find?-update_any}
use chamneul.Models.{Db, Env}
use chamneul.Models.Accounts.{Role, RoleGrantAction}
use chamneul.Models.Advisors.{
  AdvisorApplication, AdvisorApplicationStatus, advisor_application_status_Eq,
}
use chamneul.Common.Exec.{ok, answer, after}
use chamneul.Accounts.Roles.{has_role, audit_row}
use chamneul.Advisors.{
  application_pk, is_allowed, decided, review_application, approval_notice, rejection_notice,
}

-- The request is allowed from the status of the row, and a rejection has a reason.
abbrev pub is_reviewable : AdvisorApplicationStatus → String → AdvisorApplication → Bool
is_reviewable target reason a =
    is_allowed a.status target
    && not (target == AdvisorApplicationStatus.rejected && is_blank reason)

module _ (env : Env) (k actor : ℕ) (reason : String) (db : Db) (a : AdvisorApplication)
    (e : find? (application_pk k) db.applications ≡ some a) where
  abbrev pub saved : AdvisorApplicationStatus → Db
  saved target = record db {
    applications = update (application_pk a.id) (decided env target actor reason) db.applications;
  }

  -- Whatever is not a reviewable request writes nothing.
  pub review_application_refused :
      (target : AdvisorApplicationStatus)
      → is_reviewable target reason a ≡ false
      → after (review_application env k actor target reason db) ≡ db
  unfolding review_application
  review_application_refused target g = ground arith

  review_application_unanswered :
      (target : AdvisorApplicationStatus) (b : AdvisorApplication)
      → is_reviewable target reason a ≡ false
      → answer (review_application env k actor target reason db) ≡ ok b
      → ⊥
  unfolding review_application
  review_application_unanswered target b g h = ground arith

  -- The row of the key, once it has been decided.
  review_application_row :
      (target : AdvisorApplicationStatus)
      → is_reviewable target reason a ≡ true
      → find?
          (application_pk k)
          (after (review_application env k actor target reason db)).applications
        ≡ some (decided env target actor reason a)
  unfolding review_application
  review_application_row target g = ground (
    arith,
    find?-update_any (application_pk k) (application_pk a.id) (decided env target actor reason)
        db.applications (λ x. refl),
  )

  -- Where the application is REVIEWING, its approval by #15 answers the decided row and writes that
  -- row, an ADVISOR row of the applicant if there is none, one audit row, and one notification of
  -- approval.
  review_application_approved :
      is_reviewable AdvisorApplicationStatus.approved reason a ≡ true
      → review_application env k actor AdvisorApplicationStatus.approved reason db ≡ (
        ok (decided env AdvisorApplicationStatus.approved actor reason a),
        record (saved AdvisorApplicationStatus.approved) {
          user_roles =
              if has_role a.applicant Role.advisor db
              then db.user_roles
              else db.user_roles
                ++ record {
                  id = env.uuid 0;
                  user = a.applicant;
                  role = Role.advisor;
                  created_at = env.now;
                }
                  ∷ [];
          role_grants =
              db.role_grants
              ++ audit_row env
                  (env.uuid 1)
                  Role.advisor
                  RoleGrantAction.grant
                  actor
                  "advisor application approved"
                  a.applicant
                ∷ [];
          notifications = db.notifications ++ approval_notice env a.id a.applicant actor ∷ [];
        },
      )
  unfolding review_application
  review_application_approved g = ground arith

  -- Every other decision sends the notice of a rejection.
  pub review_application_noticed :
      (target : AdvisorApplicationStatus)
      → is_reviewable target reason a ≡ true
      → (target == AdvisorApplicationStatus.approved) ≡ false
      → review_application env k actor target reason db ≡ (
        ok (decided env target actor reason a),
        record (saved target) {
          notifications =
              db.notifications ++ rejection_notice env a.id a.applicant actor reason ∷ [];
        },
      )
  unfolding review_application
  review_application_noticed target g other = ground arith

-- The three ways in which a review ends, by what it leaves of the tables.
pub review_application_cases :
    (env : Env) (k actor : ℕ) (target : AdvisorApplicationStatus) (reason : String) (db : Db)
    → (after (review_application env k actor target reason db) ≡ db)
      ⊎ ((a : AdvisorApplication) × (find? (application_pk k) db.applications ≡ some a)
          × (is_reviewable target reason a ≡ true)
          × ((after (review_application env k actor target reason db)).applications
              ≡ update (application_pk a.id) (decided env target actor reason) db.applications)
          × ((after (review_application env k actor target reason db)).user_roles ≡ (
              if target == AdvisorApplicationStatus.approved
                && not (has_role a.applicant Role.advisor db)
              then db.user_roles
                ++ record {
                  id = env.uuid 0;
                  user = a.applicant;
                  role = Role.advisor;
                  created_at = env.now;
                }
                  ∷ []
              else db.user_roles))
          × ((after (review_application env k actor target reason db)).users ≡ db.users))
unfolding review_application
review_application_cases env k actor target reason db =
    elim (Option-cases (find? (application_pk k) db.applications)) [
      | inl missing ↦ inl (ground arith)
      | inr (a, e) ↦ elim (Bool-cases (is_reviewable target reason a)) [
        | inr g ↦ inl (review_application_refused env k actor reason db a e target g)
        | inl g ↦ inr (a, e, g, ground arith, ground arith, ground arith)
      ]
    ]

review_application_missing :
    (env : Env) (k actor : ℕ) (target : AdvisorApplicationStatus) (reason : String) (db : Db)
    (b : AdvisorApplication)
    → find? (application_pk k) db.applications ≡ none
    → answer (review_application env k actor target reason db) ≡ ok b
    → ⊥
unfolding review_application
review_application_missing env k actor target reason db b e h = ground arith

-- After #15 has answered for an application with a status other than REVIEWING, every later call of
-- #15 for that application, by whomever and towards whatever status, leaves the database as it is.
pub review_application_once :
    (env later : Env) (k actor other : ℕ) (target again : AdvisorApplicationStatus)
    (reason why : String) (db : Db) (a : AdvisorApplication)
    → (target == AdvisorApplicationStatus.reviewing) ≡ false
    → answer (review_application env k actor target reason db) ≡ ok a
    → after (
        review_application later k other again why
          (after (review_application env k actor target reason db)))
      ≡ after (review_application env k actor target reason db)
review_application_once env later k actor other target again reason why db a final granted =
    elim (Option-cases (find? (application_pk k) db.applications)) [
      | inl missing ↦
          absurd (review_application_missing env k actor target reason db a missing granted)
      | inr (r, e) ↦ elim (Bool-cases (is_reviewable target reason r)) [
        | inr g ↦
            absurd (review_application_unanswered env k actor reason db r e target a g granted)
        | inl g ↦
            review_application_refused later k other why
              (after (review_application env k actor target reason db))
              (decided env target actor reason r)
              (review_application_row env k actor reason db r e target g) again (ground arith)
      ]
    ]

-- When #15 takes up a PENDING application, PENDING to REVIEWING, it appends the notification of a
-- rejection for the applicant.
pub review_application_starts_with_rejection :
    (env : Env) (k actor : ℕ) (reason : String) (db : Db) (a : AdvisorApplication)
    → find? (application_pk k) db.applications ≡ some a
    → a.status ≡ AdvisorApplicationStatus.pending
    → (after
        (review_application env k actor AdvisorApplicationStatus.reviewing reason db)).notifications
      ≡ db.notifications ++ rejection_notice env a.id a.applicant actor reason ∷ []
review_application_starts_with_rejection env k actor reason db a e pending =
    ap (λ r. (after r).notifications)
      (review_application_noticed env k actor reason db a e AdvisorApplicationStatus.reviewing
        (ground arith) refl)
