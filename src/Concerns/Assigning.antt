-- ===== src/Concerns/Assigning.antt =====
-- `assign_advisor` and `unassign_advisor` of concerns/services.py, case by case.
use chamneul.Base.{
  ℕ, ◌≡◌, Bool, true, false, none, some, [], ◌∷◌, ◌++◌, ◌&&◌, not, ◌==◌, nat_eq, arith, ◌⊎◌,
  if◌then◌else◌, any, find?, update, Bool-cases, Option-cases, inl, inr,
}
use chamneul.Models.{Db, Env}
use chamneul.Models.Accounts.{Role}
use chamneul.Accounts.Roles.{holds}
use chamneul.Models.Concerns.{Concern, Assignment, ConcernStatus, concern_status_Eq}
use chamneul.Common.Errors.{Error}
use chamneul.Common.Exec.{ok, err, answer, after}
use chamneul.Concerns.{
  concern_pk, assignment_pk, is_alive, is_active_on, is_active_pair, AssignmentCreate,
  assign_advisor, unassign_advisor, new_assignment, assignment_notice, after_assign,
}

-- A call of #24 that raises leaves the database as it was.
pub assign_advisor_refused :
    (env : Env) (k actor : ℕ) (d : AssignmentCreate) (db : Db) (e : Error)
    → answer (assign_advisor env k actor d db) ≡ err e
    → after (assign_advisor env k actor d db) ≡ db
unfolding assign_advisor
assign_advisor_refused env k actor d db e h = ground arith

-- When #24 is granted for the concern that it finds.
abbrev pub is_assignable : ℕ → Concern → Db → Bool
is_assignable advisor c db =
    any (holds advisor Role.advisor) db.user_roles
    && is_alive c
    && not (c.status == ConcernStatus.closed)
    && not (any (is_active_pair c.id advisor) db.assignments)

-- The three effects of #24.
abbrev pub assigned_db : Env → ℕ → AssignmentCreate → Concern → Db → Db
assigned_db env actor d c db = record db {
  assignments = db.assignments ++ new_assignment env c.id actor d ∷ [];
  concerns =
      if c.status == ConcernStatus.submitted
      then update (concern_pk c.id) (λ r. record r { status = ConcernStatus.assigned }) db.concerns
      else db.concerns;
  notifications =
      db.notifications ++ assignment_notice env c.id (env.uuid 0) d.advisor_user_id actor ∷ [];
}

module _ (env : Env) (k actor : ℕ) (d : AssignmentCreate) (db : Db) where
  -- Where the concern is found and #24 is assignable, it answers the new assignment and the
  -- concern, appends the assignment and one notification to the advisor, and moves the concern to
  -- ASSIGNED exactly if it is SUBMITTED.
  pub assign_advisor_granted :
      (c : Concern)
      → find? (concern_pk k) db.concerns ≡ some c
      → is_assignable d.advisor_user_id c db ≡ true
      → assign_advisor env k actor d db ≡ (
        ok (new_assignment env c.id actor d, record c { status = after_assign c.status }),
        assigned_db env actor d c db,
      )
  unfolding assign_advisor
  assign_advisor_granted c e g = ground arith

  pub assign_advisor_denied :
      (c : Concern)
      → find? (concern_pk k) db.concerns ≡ some c
      → is_assignable d.advisor_user_id c db ≡ false
      → after (assign_advisor env k actor d db) ≡ db
  unfolding assign_advisor
  assign_advisor_denied c e g = ground arith

  -- A call that answers was granted.
  pub assign_advisor_answered :
      (r : Assignment × Concern)
      → answer (assign_advisor env k actor d db) ≡ ok r
      → (c : Concern) × (find? (concern_pk k) db.concerns ≡ some c)
        × (is_assignable d.advisor_user_id c db ≡ true)
  unfolding assign_advisor
  assign_advisor_answered r h = elim (Option-cases (find? (concern_pk k) db.concerns)) [
    | inl missing ↦ absurd (ground arith)
    | inr (c, e) ↦ elim (Bool-cases (is_assignable d.advisor_user_id c db)) [
      | inl g ↦ (c, e, g)
      | inr g ↦ absurd (ground arith)
    ]
  ]

  pub assign_advisor_missing :
      find? (concern_pk k) db.concerns ≡ none → after (assign_advisor env k actor d db) ≡ db
  unfolding assign_advisor
  assign_advisor_missing e = ground arith

  -- Either nothing is written, or the call is granted and all three effects are.
  pub assign_advisor_cases :
      (after (assign_advisor env k actor d db) ≡ db)
      ⊎ ((c : Concern) × (find? (concern_pk k) db.concerns ≡ some c)
          × (is_assignable d.advisor_user_id c db ≡ true)
          × (after (assign_advisor env k actor d db) ≡ assigned_db env actor d c db))
  assign_advisor_cases = elim (Option-cases (find? (concern_pk k) db.concerns)) [
    | inl missing ↦ inl (assign_advisor_missing missing)
    | inr (c, e) ↦ elim (Bool-cases (is_assignable d.advisor_user_id c db)) [
      | inl g ↦ inr (c, e, g, rw (assign_advisor_granted c e g))
      | inr g ↦ inl (assign_advisor_denied c e g)
    ]
  ]

-- The row of #25: it belongs to the concern.
abbrev pub is_assignment_of : ℕ → ℕ → Assignment → Bool
is_assignment_of concern_id assignment_id a =
    assignment_pk assignment_id a && nat_eq a.concern concern_id

abbrev pub deactivate : Env → Assignment → Assignment
deactivate env a = record a { is_active = false; deactivated_at = some env.now }

abbrev pub unassigned_db : Env → Concern → Assignment → Db → Db
unassigned_db env c a db =
    let rows = update (assignment_pk a.id) (deactivate env) db.assignments in
    record db {
      assignments = rows;
      concerns =
          if not (any (is_active_on c.id) rows) && c.status == ConcernStatus.assigned
          then update (concern_pk c.id) (λ r. record r { status = ConcernStatus.submitted })
              db.concerns
          else db.concerns;
    }

module _ (env : Env) (k j : ℕ) (db : Db) where
  pub unassign_advisor_granted :
      (c : Concern) (a : Assignment)
      → find? (concern_pk k) db.concerns ≡ some c
      → find? (is_assignment_of c.id j) db.assignments ≡ some a
      → a.is_active ≡ true
      → unassign_advisor env k j db ≡ (ok tt, unassigned_db env c a db)
  unfolding unassign_advisor
  unassign_advisor_granted c a e f g = ground arith

  pub unassign_advisor_cases :
      (after (unassign_advisor env k j db) ≡ db)
      ⊎ ((c : Concern) × (a : Assignment) × (find? (concern_pk k) db.concerns ≡ some c)
          × (find? (is_assignment_of c.id j) db.assignments ≡ some a)
          × (a.is_active ≡ true)
          × (after (unassign_advisor env k j db) ≡ unassigned_db env c a db))
  unfolding unassign_advisor
  unassign_advisor_cases = elim (Option-cases (find? (concern_pk k) db.concerns)) [
    | inl missing ↦ inl (ground arith)
    | inr (c, e) ↦ elim (Option-cases (find? (is_assignment_of c.id j) db.assignments)) [
      | inl missing ↦ inl (ground arith)
      | inr (a, f) ↦ elim (Bool-cases a.is_active) [
        | inl g ↦ inr (c, a, e, f, g, rw (unassign_advisor_granted c a e f g))
        | inr g ↦ inl (ground arith)
      ]
    ]
  ]
