-- ===== src/Concerns/Queue.antt =====
-- The concerns and the active assignments, under `assign_advisor` and `unassign_advisor` of
-- concerns/services.py.
use chamneul.Base.{
  ℕ, ◌≤◌, ◌≡◌, refl, sym, subst, true, false, some, List, [], ◌∷◌, ◌&&◌, not, ◌==◌, nat_eq, ◌∙◌,
  arith, nat_eq_iff, any, find?, count, update, All, Bool-cases, inl, inr,
}
use chamneul.Base.Rows.{
  count-append, count-update, any-append, All-update_found, All-found, found_by_key, any-zero,
  count-update_le, any-update_le, any-update_found, find?-narrow, find?-sound,
}
use chamneul.Models.{Db, Env}
use chamneul.Models.Concerns.{Concern, Assignment, ConcernStatus, concern_status_Eq}
use chamneul.Common.Exec.{after}
use chamneul.Concerns.{
  concern_pk, assignment_pk, is_active_on, is_active_pair, AssignmentCreate, assign_advisor,
  unassign_advisor, new_assignment,
}
use chamneul.Concerns.Assigning.{
  is_assignable, assigned_db, assign_advisor_cases, is_assignment_of, deactivate, unassigned_db,
  unassign_advisor_cases,
}

-- An ASSIGNED concern is in somebody's queue, and a SUBMITTED one in nobody's.
abbrev pub IsQueued : List Assignment → Concern → Type 0
IsQueued rows c =
    (c.status ≡ ConcernStatus.assigned → any (is_active_on c.id) rows ≡ true)
    × (c.status ≡ ConcernStatus.submitted → any (is_active_on c.id) rows ≡ false)

pub record IsTracked (concerns : List Concern) (assignments : List Assignment) : Type 0 where
  pub concern_keys : (k : ℕ) → count (concern_pk k) concerns ≤ 1
  pub assignment_keys : (k : ℕ) → count (assignment_pk k) assignments ≤ 1
  pub unique_active : (c a : ℕ) → count (is_active_pair c a) assignments ≤ 1
  pub queued : All (IsQueued assignments) concerns

abbrev pub AreTracked : Db → Type 0
AreTracked db = IsTracked db.concerns db.assignments

-- `uuid7` gave an id that no row of the table has.
abbrev pub IsNewAssignment : ℕ → Db → Type 0
IsNewAssignment k db = any (assignment_pk k) db.assignments ≡ false

module _ (env : Env) (actor : ℕ) (d : AssignmentCreate) (c : Concern) (k : ℕ) (db : Db)
    (e : find? (concern_pk k) db.concerns ≡ some c)
    (g : is_assignable d.advisor_user_id c db ≡ true) (t : AreTracked db) where
  found : find? (concern_pk c.id) db.concerns ≡ some c
  found = found_by_key (λ (x : Concern). x.id) k c db.concerns e

  abbrev row : Assignment
  row = new_assignment env c.id actor d

  assigned-keys : (j : ℕ) → count (concern_pk j) (assigned_db env actor d c db).concerns ≤ 1
  assigned-keys j = ground (
    arith,
    t.concern_keys j,
    count-update (concern_pk j) (concern_pk c.id)
        (λ (r : Concern). record r { status = ConcernStatus.assigned }) db.concerns (λ x. refl),
  )

  assigned_unique :
      (x a : ℕ) → count (is_active_pair x a) (assigned_db env actor d c db).assignments ≤ 1
  assigned_unique x a = ground (
    arith,
    t.unique_active x a,
    count-append (is_active_pair x a) db.assignments (row ∷ []),
    any-zero (is_active_pair x a) db.assignments,
  )

  abbrev rows' : List Assignment
  rows' = (assigned_db env actor d c db).assignments

  elsewhere :
      (x : Concern) → concern_pk c.id x ≡ false → IsQueued db.assignments x → IsQueued rows' x
  elsewhere x ne q = ground (arith, any-append (is_active_on x.id) db.assignments (row ∷ []))

  own_row : any (is_active_on c.id) rows' ≡ true
  own_row = ground (arith, any-append (is_active_on c.id) db.assignments (row ∷ []))

  assigned-IsQueued : All (IsQueued rows') (assigned_db env actor d c db).concerns
  assigned-IsQueued = elim (Bool-cases (c.status == ConcernStatus.submitted)) [
    | inl fresh ↦ rw fresh (
        All-update_found (IsQueued db.assignments) (IsQueued rows') (concern_pk c.id)
          (λ r. record r { status = ConcernStatus.assigned }) db.concerns c t.queued
          (t.concern_keys c.id) found elsewhere (λ q. ((λ s. own_row), (λ s. cc))))
    | inr kept ↦ rw kept (
        All-found (IsQueued db.assignments) (IsQueued rows') (concern_pk c.id) db.concerns c
          t.queued (t.concern_keys c.id) found elsewhere
          (λ q. ((λ s. own_row), (λ s. ground arith))))
  ]

  pub assigned_db-AreTracked :
      IsNewAssignment (env.uuid 0) db → AreTracked (assigned_db env actor d c db)
  assigned_db-AreTracked new = record {
    concern_keys = assigned-keys;
    assignment_keys = λ j. ground (
      arith,
      t.assignment_keys j,
      count-append (assignment_pk j) db.assignments (row ∷ []),
      any-zero (assignment_pk j) db.assignments,
    );
    unique_active = assigned_unique;
    queued = assigned-IsQueued;
  }

-- #24 keeps concerns and assignments tracked, granted or refused, where the id that it draws is
-- that of no assignment.
pub assign_advisor-AreTracked :
    (env : Env) (k actor : ℕ) (d : AssignmentCreate) (db : Db)
    → IsNewAssignment (env.uuid 0) db
    → AreTracked db
    → AreTracked (after (assign_advisor env k actor d db))
assign_advisor-AreTracked env k actor d db new t = elim (assign_advisor_cases env k actor d db) [
  | inl same ↦ rw same t
  | inr (c, e, g, wrote) ↦ rw wrote (assigned_db-AreTracked env actor d c k db e g t new)
]

module _ (env : Env) (c : Concern) (a : Assignment) (k j : ℕ) (db : Db)
    (e : find? (concern_pk k) db.concerns ≡ some c)
    (f : find? (is_assignment_of c.id j) db.assignments ≡ some a) (g : a.is_active ≡ true)
    (t : AreTracked db) where
  abbrev rest : List Assignment
  rest = update (assignment_pk a.id) (deactivate env) db.assignments

  unassigned-keys : (i : ℕ) → count (concern_pk i) (unassigned_db env c a db).concerns ≤ 1
  unassigned-keys i = ground (
    arith,
    t.concern_keys i,
    count-update (concern_pk i) (concern_pk c.id)
        (λ (r : Concern). record r { status = ConcernStatus.submitted }) db.concerns (λ x. refl),
  )

  unassigned_unique : (x y : ℕ) → count (is_active_pair x y) rest ≤ 1
  unassigned_unique x y = omega (
    arith,
    t.unique_active x y,
    count-update_le (is_active_pair x y) (assignment_pk a.id) (deactivate env) db.assignments
        (λ r h. ground arith),
  )

  row_found : find? (assignment_pk a.id) db.assignments ≡ some a
  row_found =
      let byj : find? (assignment_pk j) db.assignments ≡ some a =
        find?-narrow (is_assignment_of c.id j) (assignment_pk j) db.assignments a
          (λ r h. ground arith) f (t.assignment_keys j) in
      let key : a.id ≡ j =
        (nat_eq_iff a.id j).0 (find?-sound (assignment_pk j) db.assignments a byj) in
      subst (λ i. find? (assignment_pk i) db.assignments ≡ some a) (sym key) byj

  row_concern : nat_eq a.concern c.id ≡ true
  row_concern = ground (arith, find?-sound (is_assignment_of c.id j) db.assignments a f)

  away : (x : Concern) → concern_pk c.id x ≡ false → IsQueued db.assignments x → IsQueued rest x
  away x ne q =
      let same : any (is_active_on x.id) rest ≡ any (is_active_on x.id) db.assignments =
        any-update_found (is_active_on x.id) (assignment_pk a.id) (deactivate env) db.assignments a
          (t.assignment_keys a.id) row_found (ground (arith, row_concern)) in
      ((λ s. same ∙ q.0 s), (λ s. same ∙ q.1 s))

  active_before :
      any (is_active_on c.id) rest ≡ true → any (is_active_on c.id) db.assignments ≡ true
  active_before =
      any-update_le (is_active_on c.id) (assignment_pk a.id) (deactivate env) db.assignments
        (λ r h. ground arith)

  unassigned-IsQueued : All (IsQueued rest) (unassigned_db env c a db).concerns
  unassigned-IsQueued =
      elim (Bool-cases (not (any (is_active_on c.id) rest) && c.status == ConcernStatus.assigned)) [
        | inl back ↦ rw back (
            All-update_found (IsQueued db.assignments) (IsQueued rest) (concern_pk c.id)
              (λ r. record r { status = ConcernStatus.submitted }) db.concerns c t.queued
              (t.concern_keys c.id) (found_by_key (λ (x : Concern). x.id) k c db.concerns e) away
              (λ q. ((λ s. cc), (λ s. ground arith))))
        | inr kept ↦ rw kept (
            All-found (IsQueued db.assignments) (IsQueued rest) (concern_pk c.id) db.concerns c
              t.queued (t.concern_keys c.id)
              (found_by_key (λ (x : Concern). x.id) k c db.concerns e) away
              (λ q. ((λ s. ground arith), (λ s. ground (arith, active_before)))))
      ]

  pub unassigned_db-AreTracked : AreTracked (unassigned_db env c a db)
  unassigned_db-AreTracked = record {
    concern_keys = unassigned-keys;
    assignment_keys = λ i. ground (
      arith,
      t.assignment_keys i,
      count-update (assignment_pk i) (assignment_pk a.id) (deactivate env) db.assignments
          (λ x. refl),
    );
    unique_active = unassigned_unique;
    queued = unassigned-IsQueued;
  }

-- #25 keeps concerns and assignments tracked, whatever assignment of whatever concern it is asked
-- to end, granted or refused.
pub unassign_advisor-AreTracked :
    (env : Env) (k j : ℕ) (db : Db)
    → AreTracked db
    → AreTracked (after (unassign_advisor env k j db))
unassign_advisor-AreTracked env k j db t = elim (unassign_advisor_cases env k j db) [
  | inl same ↦ rw same t
  | inr (c, a, e, f, g, wrote) ↦ rw wrote (unassigned_db-AreTracked env c a k j db e f g t)
]
