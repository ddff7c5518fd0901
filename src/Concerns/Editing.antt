-- ===== src/Concerns/Editing.antt =====
-- `update_own_concern`, and the withdrawal of a concern (concerns/services.py, concerns/views.py).
use chamneul.Base.{
  ℕ, ◌≡◌, refl, ap, ◌∙◌, Bool, true, none, some, List, [], ◌∷◌, ◌&&◌, not, ◌==◌, nat_eq, arith,
  nat_eq_iff, if◌then◌else◌, any, find?, update, is_some, Option-cases, inl, inr,
}
use chamneul.Base.Rows.{any-append, any-update, find?-sound}
use chamneul.Models.{Db, Env}
use chamneul.Models.Concerns.{Concern, Assignment, ConcernStatus, concern_status_Eq}
use chamneul.Common.Errors.{Error, conflict}
use chamneul.Common.Exec.{no_match, ok, err, answer, after}
use chamneul.Concerns.{
  concern_pk, assignment_pk, is_alive, ConcernPatch, apply_patch, get_own_concern,
  update_own_concern, delete_concern, AssignmentCreate, assign_advisor, unassign_advisor,
  new_assignment,
}
use chamneul.Concerns.Assigning.{
  assign_advisor_answered, assign_advisor_granted, unassign_advisor_cases, deactivate,
}

-- The rows that #18 and #47 look up.
abbrev pub is_own_alive : ℕ → ℕ → Concern → Bool
is_own_alive user k c = is_alive c && nat_eq c.author user && concern_pk k c

-- Some advisor has had the concern.
abbrev pub ever_assigned : ℕ → Db → Bool
ever_assigned k db = any (λ (a : Assignment). nat_eq a.concern k) db.assignments

abbrev pub not_editable : Error
not_editable = conflict "조언가에게 배정된 적이 있는 고민은 고칠 수 없습니다." (some "NOT_EDITABLE")

module _ (env : Env) (user k : ℕ) (p : ConcernPatch) (db : Db) where
  -- #47 answers 404 unless the concern is the caller's and alive, NOT_EDITABLE (409) unless it is
  -- SUBMITTED and no assignment was ever made of it, and writes nothing in either case; else it
  -- writes the fields that were sent, and the time, to that row.
  pub update_own_concern_lem :
      update_own_concern env user k p db ≡ elim (find? (is_own_alive user k) db.concerns) [
        | none ↦ (err (no_match "Concern"), db)
        | some c ↦
            if c.status == ConcernStatus.submitted && not (ever_assigned c.id db)
            then (
              ok (apply_patch env.now p c),
              record db { concerns = update (concern_pk c.id) (apply_patch env.now p) db.concerns },
            )
            else (err not_editable, db)
      ]
  unfolding update_own_concern
  update_own_concern_lem = ground arith

  pub frozen : ever_assigned k db ≡ true → after (update_own_concern env user k p db) ≡ db
  frozen h = elim (Option-cases (find? (is_own_alive user k) db.concerns)) [
    | inl missing ↦ ap after update_own_concern_lem ∙ ground arith
    | inr (c, e) ↦
        let key : c.id ≡ k =
          (nat_eq_iff c.id k).0
            (ground (arith, find?-sound (is_own_alive user k) db.concerns c e)) in
        let old : ever_assigned c.id db ≡ true = rw key h in
        ap after update_own_concern_lem ∙ ground arith
  ]

-- An assignment is never forgotten.
ever_assigned-unassign :
    (env : Env) (k j : ℕ) (db : Db)
    → ever_assigned k db ≡ true
    → ever_assigned k (after (unassign_advisor env k j db)) ≡ true
ever_assigned-unassign env k j db h = elim (unassign_advisor_cases env k j db) [
  | inl same ↦ rw same h
  | inr (c, a, e, f, g, wrote) ↦ rw wrote (
      any-update (λ (r : Assignment). nat_eq r.concern k) (assignment_pk a.id) (deactivate env)
        db.assignments (λ r. refl)
      ∙ h)
]

ever_assigned-assign :
    (env : Env) (k actor : ℕ) (d : AssignmentCreate) (db : Db) (r : Assignment × Concern)
    → answer (assign_advisor env k actor d db) ≡ ok r
    → ever_assigned k (after (assign_advisor env k actor d db)) ≡ true
ever_assigned-assign env k actor d db r h =
    let (c, e, g) = assign_advisor_answered env k actor d db r h in
    rw (assign_advisor_granted env k actor d db c e g) (
      ground (
        arith,
        any-append (λ (a : Assignment). nat_eq a.concern k) db.assignments
            (new_assignment env c.id actor d ∷ []),
        find?-sound (concern_pk k) db.concerns c e,
      ))

-- After #24 has answered for a concern and one call of #25 has followed, for any assignment of it
-- and granted or refused, #47 writes nothing when it is asked to edit that concern, whoever asks
-- and whatever fields are sent.
pub no_edit_after_assignment :
    (first second third : Env) (k j actor user : ℕ) (d : AssignmentCreate) (p : ConcernPatch)
    (db : Db) (r : Assignment × Concern)
    → answer (assign_advisor first k actor d db) ≡ ok r
    → let released =
        after (unassign_advisor second k j (after (assign_advisor first k actor d db))) in
      after (update_own_concern third user k p released) ≡ released
no_edit_after_assignment first second third k j actor user d p db r h =
    let given = after (assign_advisor first k actor d db) in
    frozen third user k p (after (unassign_advisor second k j given))
      (ever_assigned-unassign second k j given (ever_assigned-assign first k actor d db r h))

-- The rows that #19 looks up.
abbrev pub is_own : ℕ → ℕ → Concern → Bool
is_own user k c = nat_eq c.author user && concern_pk k c

module _ (env : Env) (user k : ℕ) (db : Db) where
  -- #19 withdraws the caller's concern once: a second call is a conflict.
  pub delete_concern_lem : delete_concern env user k db ≡ elim (find? (is_own user k) db.concerns) [
    | none ↦ (err (no_match "Concern"), db)
    | some c ↦ if is_some c.deleted_at then (err (conflict "이미 삭제된 고민입니다." none), db) else (
      ok tt,
      record db {
        concerns =
            update (concern_pk c.id) (λ r. record r { deleted_at = some env.now }) db.concerns;
      },
    )
  ]
  unfolding delete_concern
  delete_concern_lem = ground arith

  alive_own :
      (rows : List Concern) (i : ℕ)
      → i ≡ k
      → find?
          (is_own_alive user k)
          (update (concern_pk i) (λ r. record r { deleted_at = some env.now }) rows)
        ≡ none
  alive_own [] i e = refl
  alive_own (c ∷ rows) i e = ground (arith, alive_own rows i e)

  -- Once #19 has answered for a concern, #18 answers its owner 404.
  pub get_own_concern-delete :
      answer (delete_concern env user k db) ≡ ok tt
      → answer (get_own_concern user k (after (delete_concern env user k db)))
        ≡ err (no_match "Concern")
  unfolding get_own_concern
  get_own_concern-delete h = elim (Option-cases (find? (is_own user k) db.concerns)) [
    | inl missing ↦ absurd (ground (arith, delete_concern_lem))
    | inr (c, e) ↦
        let key : c.id ≡ k =
          (nat_eq_iff c.id k).0 (ground (arith, find?-sound (is_own user k) db.concerns c e)) in
        ground (arith, delete_concern_lem, alive_own db.concerns c.id key)
  ]
