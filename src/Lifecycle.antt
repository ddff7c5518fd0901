-- ===== src/Lifecycle.antt =====
-- The runs of the operations that change concerns and assignments: #16, #47 and #19 of the owner,
-- #24 and #25 of the admin, the review #33, and the three bulk actions of the admin pages
-- (concerns/services.py, advice/services.py, concerns/admin.py).
pub mod Settled
pub mod Roles
pub mod Histories
pub mod Applications
use chamneul.Base.{
  ℕ, ◌≤◌, String, ◌≡◌, refl, Bool, false, none, some, List, [], ◌∷◌, ◌++◌, ◌&&◌, not, ◌==◌, arith,
  ◌⊎◌, any, find?, count, update, Option-cases, Bool-cases, is_some, inl, inr,
}
use chamneul.Base.Runs.{Run, Run-kept}
use chamneul.Base.Rows.{All-append, All-update, count-append, count-update, any-zero}
use chamneul.Models.{Db, Env}
use chamneul.Models.Concerns.{Concern, Assignment, ConcernStatus, concern_status_Eq}
use chamneul.Common.Exec.{after}
use chamneul.Concerns.{
  ConcernCreate, ConcernPatch, AssignmentCreate, concern_pk, apply_patch, create_concern,
  update_own_concern, delete_concern, assign_advisor, unassign_advisor, is_active_on, is_alive,
}
use chamneul.Concerns.Bulk.{
  is_closable, close, close_selected, soft_delete_selected, restore_selected,
}
use chamneul.Concerns.Editing.{
  is_own, is_own_alive, ever_assigned, update_own_concern_lem, delete_concern_lem,
}
use chamneul.Concerns.Queue.{
  IsQueued, IsTracked, AreTracked, IsNewAssignment, assign_advisor-AreTracked,
  unassign_advisor-AreTracked,
}
use chamneul.Advice.{Decision, is_rejected, review_advice}
use chamneul.Advice.Effects.{review_advice_cases}

-- The new id is that of no concern, and no assignment names it.
abbrev pub IsNewConcern : ℕ → Db → Type 0
IsNewConcern k db =
    (any (concern_pk k) db.concerns ≡ false) × (any (is_active_on k) db.assignments ≡ false)

-- One call of the service layer that may write a concern or an assignment. A refused call is a
-- step too.
pub data Step : Db → Db → Type 0 where
  created :
      (env : Env) (author : ℕ) (d : ConcernCreate) {db : Db}
      → IsNewConcern (env.uuid 0) db
      → Step db (after (create_concern env author d db))
  edited :
      (env : Env) (user k : ℕ) (p : ConcernPatch) {db : Db}
      → Step db (after (update_own_concern env user k p db))
  withdrawn : (env : Env) (user k : ℕ) {db : Db} → Step db (after (delete_concern env user k db))
  assigned :
      (env : Env) (k actor : ℕ) (d : AssignmentCreate) {db : Db}
      → IsNewAssignment (env.uuid 0) db
      → Step db (after (assign_advisor env k actor d db))
  unassigned : (env : Env) (k j : ℕ) {db : Db} → Step db (after (unassign_advisor env k j db))
  reviewed :
      (env : Env) (k actor : ℕ) (d : Decision) (reason : String) (expected : ℕ) {db : Db}
      → Step db (after (review_advice env k actor d reason expected db))
  closed :
      (env : Env) (queryset : Concern → Bool) {db : Db}
      → Step db (after (close_selected env queryset db))
  removed :
      (env : Env) (queryset : Concern → Bool) {db : Db}
      → Step db (after (soft_delete_selected env queryset db))
  restored : (queryset : Concern → Bool) {db : Db} → Step db (after (restore_selected queryset db))

-- The states that such calls lead to, in any order.
abbrev pub Reach : Db → Db → Type 0
Reach = Run Step

-- A rewriting of concerns that keeps their ids and their place in the queues.
rewritten :
    (q : Concern → Bool) (f : Concern → Concern) (concerns : List Concern) (rows : List Assignment)
    → ((k : ℕ) (x : Concern) → concern_pk k (f x) ≡ concern_pk k x)
    → ((x : Concern) → IsQueued rows x → IsQueued rows (f x))
    → IsTracked concerns rows
    → IsTracked (update q f concerns) rows
rewritten q f concerns rows same own t = record {
  concern_keys = λ k. rw (count-update (concern_pk k) q f concerns (same k)) (t.concern_keys k);
  assignment_keys = t.assignment_keys;
  unique_active = t.unique_active;
  queued =
      All-update (IsQueued rows) (IsQueued rows) q f concerns t.queued (λ x n h. h)
        (λ x n h. own x h);
}

keys_added :
    (k : ℕ) (c : Concern) (concerns : List Concern)
    → any (concern_pk c.id) concerns ≡ false
    → count (concern_pk k) concerns ≤ 1
    → count (concern_pk k) (concerns ++ c ∷ []) ≤ 1
keys_added k c concerns new u =
    ground (arith, count-append (concern_pk k) concerns (c ∷ []), any-zero (concern_pk k) concerns)

create_concern-AreTracked :
    (env : Env) (author : ℕ) (d : ConcernCreate) (db : Db)
    → IsNewConcern (env.uuid 0) db
    → AreTracked db
    → AreTracked (after (create_concern env author d db))
unfolding create_concern
create_concern-AreTracked env author d db new t = record {
  concern_keys = λ k. keys_added k _ db.concerns new.0 (t.concern_keys k);
  assignment_keys = t.assignment_keys;
  unique_active = t.unique_active;
  queued =
      All-append (IsQueued db.assignments) db.concerns _ t.queued
        (((λ s. ground arith), (λ s. new.1)), tt);
}

-- The two ways an owner's call may end.
pub update_own_concern_cases :
    (env : Env) (user k : ℕ) (p : ConcernPatch) (db : Db)
    → (after (update_own_concern env user k p db) ≡ db)
      ⊎ ((c : Concern) × (after (update_own_concern env user k p db) ≡ record db {
        concerns = update (concern_pk c.id) (apply_patch env.now p) db.concerns;
      }))
update_own_concern_cases env user k p db =
    elim (Option-cases (find? (is_own_alive user k) db.concerns)) [
      | inl missing ↦ inl (ground (arith, update_own_concern_lem env user k p db))
      | inr (c, e) ↦
          elim (Bool-cases (c.status == ConcernStatus.submitted && not (ever_assigned c.id db))) [
            | inl open_ ↦ inr (c, ground (arith, update_own_concern_lem env user k p db))
            | inr shut ↦ inl (ground (arith, update_own_concern_lem env user k p db))
          ]
    ]

abbrev pub withdraw : Env → Concern → Concern
withdraw env c = record c { deleted_at = some env.now }

pub delete_concern_cases :
    (env : Env) (user k : ℕ) (db : Db)
    → (after (delete_concern env user k db) ≡ db)
      ⊎ ((c : Concern) × (after (delete_concern env user k db)
            ≡ record db { concerns = update (concern_pk c.id) (withdraw env) db.concerns }))
delete_concern_cases env user k db = elim (Option-cases (find? (is_own user k) db.concerns)) [
  | inl missing ↦ inl (ground (arith, delete_concern_lem env user k db))
  | inr (c, e) ↦ elim (Bool-cases (is_some c.deleted_at)) [
    | inl gone ↦ inl (ground (arith, delete_concern_lem env user k db))
    | inr alive ↦ inr (c, ground (arith, delete_concern_lem env user k db))
  ]
]

abbrev pub answer_concern : Concern → Concern
answer_concern c = record c { status = ConcernStatus.answered }

review_advice-AreTracked :
    (env : Env) (k actor : ℕ) (d : Decision) (reason : String) (expected : ℕ) (db : Db)
    → AreTracked db
    → AreTracked (after (review_advice env k actor d reason expected db))
review_advice-AreTracked env k actor d reason expected db t =
    elim (review_advice_cases env k actor d reason expected db) [
      | inl (e, same) ↦ rw same t
      | inr (a, c, e, g, f, wrote) ↦
          elim (Bool-cases (not (is_rejected d) && c.status == ConcernStatus.assigned)) [
            | inl first ↦
                rw (wrote, first)
                  (rewritten (concern_pk c.id) answer_concern db.concerns db.assignments
                    (λ i x. refl) (λ x h. ((λ s. ground arith), (λ s. ground arith))) t)
            | inr other ↦ rw (wrote, other) t
          ]
    ]

bulk-AreTracked :
    (env : Env) (queryset : Concern → Bool) (db : Db)
    → AreTracked db
    → AreTracked (after (close_selected env queryset db))
      × AreTracked (after (soft_delete_selected env queryset db))
unfolding close_selected soft_delete_selected
bulk-AreTracked env queryset db t = (
  rewritten (λ c. queryset c && is_closable c) (close env) db.concerns db.assignments (λ i x. refl)
      (λ x h. ((λ s. ground arith), (λ s. ground arith))) t,
  rewritten (λ c. queryset c && is_alive c) (withdraw env) db.concerns db.assignments (λ i x. refl)
      (λ x h. h) t,
)

restore-AreTracked :
    (queryset : Concern → Bool) (db : Db)
    → AreTracked db
    → AreTracked (after (restore_selected queryset db))
unfolding restore_selected
restore-AreTracked queryset db t =
    rewritten (λ c. queryset c && not (is_alive c)) (λ c. record c { deleted_at = none })
      db.concerns db.assignments (λ i x. refl) (λ x h. h) t

-- One call keeps the queue invariant.
pub step-AreTracked : {db db' : Db} → Step db db' → AreTracked db → AreTracked db'
step-AreTracked {db} (Step.created env author d new) t =
    create_concern-AreTracked env author d db new t
step-AreTracked {db} (Step.edited env user k p) t =
    elim (update_own_concern_cases env user k p db) [
      | inl same ↦ rw same t
      | inr (c, wrote) ↦ rw wrote (
          rewritten (concern_pk c.id) (apply_patch env.now p) db.concerns db.assignments
            (λ i x. refl) (λ x h. h) t)
    ]
step-AreTracked {db} (Step.withdrawn env user k) t = elim (delete_concern_cases env user k db) [
  | inl same ↦ rw same t
  | inr (c, wrote) ↦ rw wrote (
      rewritten (concern_pk c.id) (withdraw env) db.concerns db.assignments (λ i x. refl) (λ x h. h)
        t)
]
step-AreTracked {db} (Step.assigned env k actor d new) t =
    assign_advisor-AreTracked env k actor d db new t
step-AreTracked {db} (Step.unassigned env k j) t = unassign_advisor-AreTracked env k j db t
step-AreTracked {db} (Step.reviewed env k actor d reason expected) t =
    review_advice-AreTracked env k actor d reason expected db t
step-AreTracked {db} (Step.closed env queryset) t = (bulk-AreTracked env queryset db t).0
step-AreTracked {db} (Step.removed env queryset) t = (bulk-AreTracked env queryset db t).1
step-AreTracked {db} (Step.restored queryset) t = restore-AreTracked queryset db t

-- Every run of #16, #47, #19, #24, #25, #33 and the three bulk actions of the admin page (a data
-- type of runs, refused calls included) leads from a database in which concerns and assignments are
-- tracked to one in which they are, where the new ids of #16 and #24 are fresh. Tracked: ids are
-- unique, an advisor has at most one active assignment of a concern, an ASSIGNED concern has an
-- active assignment, and a SUBMITTED one has none.
pub Reach-AreTracked : {start db : Db} → Reach start db → AreTracked start → AreTracked db
Reach-AreTracked r t = Run-kept Step AreTracked (λ a b s u. step-AreTracked s u) r t
