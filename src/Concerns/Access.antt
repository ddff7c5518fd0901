-- ===== src/Concerns/Access.antt =====
-- `approved_advices_view_data` and `get_assigned_concern` of concerns/services.py.
use chamneul.Base.{
  ℕ, ◌≡◌, refl, Bool, true, false, Option, none, some, List, [], ◌∷◌, ◌&&◌, ◌==◌, nat_eq,
  nat_eq_iff, arith, any, filter, find?, map, All, Bool-cases, inl, inr,
}
use chamneul.Base.Order.{oldest_first, order_by-All}
use chamneul.Base.Rows.{any-imp, find?-update, found_by_key, find?-sound, All-imp}
use chamneul.Base.Views.{any-and_of_find?, find?-append_new}
use chamneul.Models.{Db, Env}
use chamneul.Models.Accounts.{User}
use chamneul.Models.Advice.{Advice, advice_status_Eq}
use chamneul.Models.Concerns.{Concern, Assignment, ConcernStatus, concern_status_Eq}
use chamneul.Common.Exec.{ok, answer, after}
use chamneul.Accounts.Roles.{user_pk}
use chamneul.Concerns.{
  concern_pk, is_alive, AssignmentCreate, assign_advisor, is_active_pair, after_assign,
  new_assignment,
}
use chamneul.Concerns.Assigning.{is_assignable, assigned_db, assign_advisor_granted}
use chamneul.Concerns.Reading.{
  join_row, joined, ApprovedAdvice, approved_advices_view_data, is_approved_on,
  get_assigned_concern, is_in_queue,
}

module _ (P : Advice → Type 0) where
  join_row-All :
      (a : Advice) (o : Option User) (rest : List (Advice × User))
      → P a
      → All (λ r. P r.0) rest
      → All (λ r. P r.0) (join_row a o rest)
  join_row-All a none rest p h = h
  join_row-All a (some u) rest p h = (p, h)

  joined-All :
      (rows : List Advice) (users : List User)
      → All P rows
      → All (λ r. P r.0) (joined (λ (a : Advice). a.advisor) rows users)
  unfolding joined
  joined-All [] users h = tt
  joined-All (a ∷ rows) users h =
      join_row-All a (find? (user_pk a.advisor) users) _ h.0 (joined-All rows users h.1)

module _ {A B : Type 0} where
  map-All :
      (P : A → Type 0) (Q : B → Type 0) (f : A → B) (xs : List A)
      → All P xs
      → ((x : A) → P x → Q (f x))
      → All Q (map f xs)
  map-All P Q f [] h g = tt
  map-All P Q f (x ∷ xs) h g = (g x h.0, map-All P Q f xs h.1 g)

-- A row that passes the test, and is found in the table by any test that it passes.
abbrev IsRowOf : (Advice → Bool) → List Advice → Advice → Type 0
IsRowOf p xs a = (p a ≡ true) × ((q : Advice → Bool) → q a ≡ true → any q xs ≡ true)

filter_rows : (p : Advice → Bool) (xs : List Advice) → All (IsRowOf p xs) (filter p xs)
filter_rows p [] = tt
filter_rows p (x ∷ xs) =
    let later : All (IsRowOf p (x ∷ xs)) (filter p xs) =
      All-imp (IsRowOf p xs) (IsRowOf p (x ∷ xs)) (filter p xs) (filter_rows p xs)
        (λ a h. (h.0, λ q g. ground (arith, h.1 q g))) in
    elim (Bool-cases (p x)) [
      | inl kept ↦ rw kept ((kept, λ q h. ground arith), later)
      | inr lost ↦ rw lost later
    ]

-- The advice that an entry of #18 shows: an approved one on the concern.
abbrev pub is_shown_as : ℕ → ApprovedAdvice → Advice → Bool
is_shown_as concern v a = nat_eq a.id v.advice_id && is_approved_on concern a

-- Every entry of the list of advices that the owner of a concern sees in #18 carries the id of an
-- APPROVED advice on that concern.
pub approved_advices_view_data_approved :
    (concern : Concern) (db : Db)
    → All
        (λ v. any (is_shown_as concern.id v) db.advices ≡ true)
        (approved_advices_view_data concern db)
unfolding approved_advices_view_data oldest_first
approved_advices_view_data_approved concern db =
    map-All _ (λ v. any (is_shown_as concern.id v) db.advices ≡ true) _ _
      (joined-All (IsRowOf (is_approved_on concern.id) db.advices) _ db.users (
        order_by-All _ _ (filter (is_approved_on concern.id) db.advices)
          (filter_rows (is_approved_on concern.id) db.advices)))
      (λ r h. h.1 _ (ground (arith, h.0)))

get_assigned_concern_found :
    (advisor k : ℕ) (r : Assignment) (c : Concern) (db : Db)
    → find? (is_in_queue advisor k db) db.assignments ≡ some r
    → find? (concern_pk r.concern) db.concerns ≡ some c
    → answer (get_assigned_concern advisor k db) ≡ ok (c, r)
unfolding get_assigned_concern
get_assigned_concern_found advisor k r c db e f = ground arith

after_assign_kept :
    (s : ConcernStatus) → (s == ConcernStatus.submitted) ≡ false → after_assign s ≡ s
after_assign_kept s h = ground arith

module _ (env : Env) (k actor : ℕ) (d : AssignmentCreate) (c : Concern) (db : Db)
    (e : find? (concern_pk k) db.concerns ≡ some c)
    (g : is_assignable d.advisor_user_id c db ≡ true) where
  abbrev row : Assignment
  row = new_assignment env c.id actor d

  abbrev db' : Db
  db' = assigned_db env actor d c db

  concern_after :
      find? (concern_pk c.id) db'.concerns ≡ some (record c { status = after_assign c.status })
  concern_after =
      let found = found_by_key (λ (x : Concern). x.id) k c db.concerns e in
      let changed =
        find?-update (concern_pk c.id)
          (λ (r : Concern). record r { status = ConcernStatus.assigned }) db.concerns (λ x. refl) in
      elim (Bool-cases (c.status == ConcernStatus.submitted)) [
        | inl fresh ↦ ground (arith, changed)
        | inr kept ↦ rw (kept, after_assign_kept c.status kept) found
      ]

  assignment_after : find? (is_in_queue d.advisor_user_id k db') db'.assignments ≡ some row
  assignment_after =
      let key : c.id ≡ k = (nat_eq_iff c.id k).0 (find?-sound (concern_pk k) db.concerns c e) in
      let fresh : any (is_in_queue d.advisor_user_id k db') db.assignments ≡ false =
        any-imp (is_in_queue d.advisor_user_id k db') (is_active_pair c.id d.advisor_user_id)
          db.assignments (λ x h. ground arith) (ground arith) in
      let there =
        any-and_of_find? (concern_pk c.id) is_alive db'.concerns
          (record c { status = after_assign c.status }) concern_after (ground arith) in
      find?-append_new (is_in_queue d.advisor_user_id k db') db.assignments row fresh
        (ground (arith, there))

-- Where the concern is found and #24 is assignable (the user holds ADVISOR, the concern is alive
-- and not CLOSED, and the two have no active assignment), #21 answers that advisor, right after
-- #24, with the concern in its new status and the new assignment.
pub assign_advisor-get_assigned_concern :
    (env : Env) (k actor : ℕ) (d : AssignmentCreate) (c : Concern) (db : Db)
    → find? (concern_pk k) db.concerns ≡ some c
    → is_assignable d.advisor_user_id c db ≡ true
    → answer (get_assigned_concern d.advisor_user_id k (after (assign_advisor env k actor d db)))
      ≡ ok (record c { status = after_assign c.status }, new_assignment env c.id actor d)
assign_advisor-get_assigned_concern env k actor d c db e g =
    rw (assign_advisor_granted env k actor d db c e g) (
      get_assigned_concern_found d.advisor_user_id k (new_assignment env c.id actor d)
        (record c { status = after_assign c.status }) (assigned_db env actor d c db)
        (assignment_after env k actor d c db e g) (concern_after env k actor d c db e g))
