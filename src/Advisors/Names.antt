-- ===== src/Advisors/Names.antt =====
-- The applications, their display names and the roles, under the operations of advisors/services.py.
use chamneul.Base.{
  ℕ, ◌≤◌, String, ◌≡◌, refl, subst, Bool, true, false, some, List, [], ◌∷◌, ◌++◌, ◌&&◌, not, ◌==◌,
  string_Eq, arith, ◌⊎◌, inl, inr, any, find?, count, update, Bool-cases,
}
use chamneul.Base.Rows.{
  count-append, count-update, any-imp, any-zero, found_by_key, count-update_found,
}
use chamneul.Models.{Db, Env}
use chamneul.Models.Accounts.{Role, role_Eq}
use chamneul.Models.Advisors.{
  AdvisorApplication, AdvisorApplicationStatus, advisor_application_status_Eq,
}
use chamneul.Common.Exec.{after}
use chamneul.Accounts.Roles.{has_role}
use chamneul.Accounts.Roles.Worn.{RolesHold, AreWorn-append}
use chamneul.Advisors.{
  application_pk, takes_name, is_blocking, decided, create_application, review_application,
  new_application, ApplicationCreate,
}
use chamneul.Advisors.Review.{is_reviewable, review_application_cases}

-- In progress: received or under review.
abbrev pub is_open : ℕ → AdvisorApplication → Bool
is_open = is_blocking false

pub record AreDistinct (rows : List AdvisorApplication) : Type 0 where
  pub keys : (k : ℕ) → count (application_pk k) rows ≤ 1
  pub names : (s : String) → count (takes_name s) rows ≤ 1
  pub applicants : (u : ℕ) → count (is_open u) rows ≤ 1

module _ (env : Env) (applicant : ℕ) (d : ApplicationCreate) (db : Db) where
  abbrev created : Db
  created = record db { applications = db.applications ++ new_application env applicant d ∷ [] }

  create_application_cases :
      (after (create_application env applicant d db) ≡ db)
      ⊎ ((any (is_open applicant) db.applications ≡ false)
          × (any (takes_name d.display_name) db.applications ≡ false)
          × (after (create_application env applicant d db) ≡ created))
  unfolding create_application
  create_application_cases =
      elim (Bool-cases
        (any (is_blocking (has_role applicant Role.advisor db) applicant) db.applications)) [
          | inl blocked ↦ inl (ground arith)
          | inr free ↦ elim (Bool-cases (any (takes_name d.display_name) db.applications)) [
            | inl taken ↦ inl (ground arith)
            | inr unused ↦ inr (
              any-imp (is_open applicant)
                  (is_blocking (has_role applicant Role.advisor db) applicant) db.applications
                  (λ x h. ground arith) free,
              unused,
              ground arith,
            )
          ]
        ]

  created-names :
      (s : String)
      → any (takes_name d.display_name) db.applications ≡ false
      → count (takes_name s) db.applications ≤ 1
      → count (takes_name s) created.applications ≤ 1
  created-names s unused u = elim (Bool-cases (d.display_name == s)) [
    | inl same ↦
        let none_left : count (takes_name s) db.applications ≡ 0 =
          any-zero (takes_name s) db.applications (
            subst (λ t. any (takes_name t) db.applications ≡ false)
              ((string_Eq.same_iff d.display_name s).0 same) unused) in
        ground (
          arith,
          count-append (takes_name s) db.applications (new_application env applicant d ∷ []),
        )
    | inr other ↦
        ground (
          arith,
          count-append (takes_name s) db.applications (new_application env applicant d ∷ []),
        )
  ]

  -- #11 keeps the applications distinct, granted or refused, where the id that it draws is that of
  -- no application.
  pub create_application-AreDistinct :
      any (application_pk (env.uuid 0)) db.applications ≡ false
      → AreDistinct db.applications
      → AreDistinct (after (create_application env applicant d db)).applications
  create_application-AreDistinct new t = elim create_application_cases [
    | inl same ↦ rw same t
    | inr (free, unused, wrote) ↦ rw wrote (record {
      keys = λ k. ground (
        arith,
        t.keys k,
        any-zero (application_pk k) db.applications,
        count-append (application_pk k) db.applications (new_application env applicant d ∷ []),
      );
      names = λ s. created-names s unused (t.names s);
      applicants = λ u. ground (
        arith,
        t.applicants u,
        any-zero (is_open u) db.applications,
        count-append (is_open u) db.applications (new_application env applicant d ∷ []),
      );
    })
  ]

module _ (env : Env) (k actor : ℕ) (target : AdvisorApplicationStatus) (reason : String)
    (db : Db) where
  reviewed-AreDistinct :
      (a : AdvisorApplication)
      → find? (application_pk k) db.applications ≡ some a
      → is_reviewable target reason a ≡ true
      → AreDistinct db.applications
      → AreDistinct (update (application_pk a.id) (decided env target actor reason) db.applications)
  reviewed-AreDistinct a e g t =
      let found : find? (application_pk a.id) db.applications ≡ some a =
        found_by_key (λ (x : AdvisorApplication). x.id) k a db.applications e in
      record {
        keys = λ j. omega (
          arith,
          t.keys j,
          count-update (application_pk j) (application_pk a.id) (decided env target actor reason)
              db.applications (λ x. refl),
        );
        names = λ s. ground (
          arith,
          t.names s,
          count-update_found (takes_name s) (application_pk a.id) (decided env target actor reason)
              db.applications a (t.keys a.id) found,
        );
        applicants = λ u. ground (
          arith,
          t.applicants u,
          count-update_found (is_open u) (application_pk a.id) (decided env target actor reason)
              db.applications a (t.keys a.id) found,
        );
      }

  -- #15 keeps the applications distinct, whatever the decision. AreDistinct: ids are unique, at
  -- most one PENDING, REVIEWING or APPROVED application uses a display name, and an applicant has
  -- at most one that is PENDING or REVIEWING.
  pub review_application-AreDistinct :
      AreDistinct db.applications
      → AreDistinct (after (review_application env k actor target reason db)).applications
  review_application-AreDistinct t = elim (review_application_cases env k actor target reason db) [
    | inl same ↦ rw same t
    | inr (a, e, g, apps, _, _) ↦ rw apps (reviewed-AreDistinct a e g t)
  ]

  -- #15 keeps the roles well kept, whatever the decision.
  pub review_application-RolesHold :
      RolesHold db → RolesHold (after (review_application env k actor target reason db))
  review_application-RolesHold w = elim (review_application_cases env k actor target reason db) [
    | inl same ↦ rw same w
    | inr (a, e, g, _, roles, users) ↦
        rw (roles, users)
          (elim (Bool-cases (
            target == AdvisorApplicationStatus.approved
            && not (has_role a.applicant Role.advisor db))) [
              | inl fresh ↦ rw fresh (
                  AreWorn-append db.users db.user_roles
                    (record {
                      id = env.uuid 0;
                      user = a.applicant;
                      role = Role.advisor;
                      created_at = env.now;
                    })
                    w refl (ground arith))
              | inr kept ↦ rw kept w
            ])
  ]
