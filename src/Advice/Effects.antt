-- ===== src/Advice/Effects.antt =====
-- The operations of advice/services.py on an advice, case by case.
use chamneul.Base.{
  ℕ, String, ◌≡◌, refl, Bool, true, false, Option, none, some, List, [], ◌∷◌, ◌++◌, ◌&&◌, not, ◌==◌,
  nat_eq, arith, ◌⊎◌, inl, inr, if◌then◌else◌, any, find?, update, Bool-cases, Option-cases,
  is_blank, is_some, text_append,
}
use chamneul.Models.{Db, Env}
use chamneul.Models.Concerns.{Concern, ConcernStatus, concern_status_Eq}
use chamneul.Models.Advice.{Advice, AdviceHistory, AdviceStatus, advice_status_Eq}
use chamneul.Common.Errors.{
  Error, conflict, precondition_failed, unprocessable_entity, does_not_exist,
}
use chamneul.Common.Exec.{no_match, ok, err, after}
use chamneul.Concerns.{concern_pk, is_alive, is_active_pair}
use chamneul.Advice.{
  advice_pk, is_pending, is_deletable, AdviceCreate, new_advice, is_live_pair, create_advice,
  AdvicePatch, body_changed, snapshot, is_version, edited, update_advice, delete_advice, Decision,
  is_rejected, reviewed, review_notice, after_review, review_advice, advice_status_value,
}

-- The concern of #28.
abbrev pub is_open_concern : ℕ → Concern → Bool
is_open_concern k c = is_alive c && concern_pk k c

pub create_advice_cases :
    (env : Env) (k advisor : ℕ) (d : AdviceCreate) (db : Db)
    → (after (create_advice env k advisor d db) ≡ db)
      ⊎ ((c : Concern) × (find? (is_open_concern k) db.concerns ≡ some c)
          × (any (is_active_pair c.id advisor) db.assignments ≡ true)
          × (any (is_live_pair c.id advisor) db.advices ≡ false)
          × (create_advice env k advisor d db ≡ (
            ok (new_advice env c.id advisor d),
            record db { advices = db.advices ++ new_advice env c.id advisor d ∷ [] },
          )))
unfolding create_advice
create_advice_cases env k advisor d db =
    elim (Option-cases (find? (is_open_concern k) db.concerns)) [
      | inl missing ↦ inl (ground arith)
      | inr (c, e) ↦
          elim (Bool-cases (
            any (is_active_pair c.id advisor) db.assignments
            && not (any (is_live_pair c.id advisor) db.advices))) [
              | inl g ↦ inr (c, e, ground arith, ground arith, ground arith)
              | inr g ↦ inl (ground arith)
            ]
    ]

abbrev pub is_own : ℕ → (AdviceStatus → Bool) → Advice → Bool
is_own actor allowed a = nat_eq a.advisor actor && allowed a.status

abbrev pub with_history : Env → ℕ → AdvicePatch → Advice → List AdviceHistory → List AdviceHistory
with_history env actor p a rows =
    if body_changed p a then rows ++ snapshot env actor a ∷ [] else rows

abbrev pub edited_db : Env → ℕ → AdvicePatch → Advice → Db → Db
edited_db env actor p a db = record db {
  advices = update (advice_pk a.id) (edited env p (body_changed p a)) db.advices;
  advice_histories = with_history env actor p a db.advice_histories;
}

module _ (env : Env) (k actor : ℕ) (p : AdvicePatch) (db : Db) where
  pub update_advice_granted :
      (a : Advice)
      → find? (advice_pk k) db.advices ≡ some a
      → is_own actor is_pending a ≡ true
      → any (is_version a.id a.version) db.advice_histories ≡ false
      → update_advice env k actor p db
        ≡ (ok (edited env p (body_changed p a) a), edited_db env actor p a db)
  unfolding update_advice
  update_advice_granted a e g new = ground arith

  pub update_advice_cases :
      (after (update_advice env k actor p db) ≡ db)
      ⊎ ((a : Advice) × (find? (advice_pk k) db.advices ≡ some a)
          × (is_own actor is_pending a ≡ true)
          × (after (update_advice env k actor p db) ≡ edited_db env actor p a db))
  unfolding update_advice
  update_advice_cases = elim (Option-cases (find? (advice_pk k) db.advices)) [
    | inl missing ↦ inl (ground arith)
    | inr (a, e) ↦ elim (Bool-cases (is_own actor is_pending a)) [
      | inr g ↦ inl (ground arith)
      | inl g ↦
          elim (Bool-cases
            (body_changed p a && any (is_version a.id a.version) db.advice_histories)) [
              | inl clash ↦ inl (ground arith)
              | inr new ↦ inr (a, e, g, ground arith)
            ]
    ]
  ]

abbrev pub withdrawn_db : Advice → Db → Db
withdrawn_db a db = record db {
  advices = update (advice_pk a.id) (λ r. record r { status = AdviceStatus.deleted }) db.advices;
}

pub delete_advice_cases :
    (k actor : ℕ) (db : Db)
    → (after (delete_advice k actor db) ≡ db)
      ⊎ ((a : Advice) × (find? (advice_pk k) db.advices ≡ some a)
          × (is_own actor is_deletable a ≡ true)
          × (after (delete_advice k actor db) ≡ withdrawn_db a db))
unfolding delete_advice
delete_advice_cases k actor db = elim (Option-cases (find? (advice_pk k) db.advices)) [
  | inl missing ↦ inl (ground arith)
  | inr (a, e) ↦ elim (Bool-cases (is_own actor is_deletable a)) [
    | inr g ↦ inl (ground arith)
    | inl g ↦ inr (a, e, g, ground arith)
  ]
]

-- The conditions of #33 on the row.
abbrev pub is_reviewable : Decision → String → ℕ → Advice → Bool
is_reviewable d reason expected a =
    a.is_submitted
    && is_pending a.status
    && nat_eq a.version expected
    && not (is_rejected d && is_blank reason)

-- The first check that a review fails.
abbrev pub review_error : Decision → String → ℕ → Advice → Option Concern → Option Error
review_error d reason expected a oc =
    if not a.is_submitted
    then some (conflict "제출되지 않은 초안은 리뷰할 수 없습니다." none)
    else if not (is_pending a.status)
    then some (conflict (text_append (advice_status_value a.status) " 상태의 조언은 리뷰할 수 없습니다.") none)
    else if not (nat_eq a.version expected)
    then some precondition_failed
    else if is_rejected d && is_blank reason
    then some (unprocessable_entity "반려 시 사유는 필수입니다.")
    else elim oc [
      | none ↦ some does_not_exist
      | some c ↦
          if is_some c.deleted_at then some (conflict "삭제된 고민의 조언은 리뷰할 수 없습니다." none) else none
    ]

abbrev pub reviewed_db : Env → ℕ → Decision → String → Advice → Concern → Db → Db
reviewed_db env actor d reason a c db = record db {
  advices = update (advice_pk a.id) (reviewed env actor d reason) db.advices;
  concerns =
      if not (is_rejected d) && c.status == ConcernStatus.assigned
      then update (concern_pk c.id) (λ r. record r { status = ConcernStatus.answered }) db.concerns
      else db.concerns;
  notifications = db.notifications ++ review_notice env actor d reason a c ∷ [];
}

module _ (env : Env) (k actor : ℕ) (d : Decision) (reason : String) (expected : ℕ) (db : Db) where
  -- A review that passes every check, in the terms of the code.
  pub review_advice_written :
      (a : Advice) (c : Concern)
      → find? (advice_pk k) db.advices ≡ some a
      → is_reviewable d reason expected a ≡ true
      → find? (concern_pk a.concern) db.concerns ≡ some c
      → is_alive c ≡ true
      → review_advice env k actor d reason expected db ≡ (
        ok (reviewed env actor d reason a, record c { status = after_review d c.status }),
        reviewed_db env actor d reason a c db,
      )
  unfolding review_advice
  review_advice_written a c e g f alive = ground arith

  -- A call of #33 for an advice that is there, which fails one of the checks, answers the error of
  -- the first check that it fails, in the order draft (409), status (409), version (412), reason
  -- (422), missing concern (500), withdrawn concern (409), and writes nothing.
  pub review_advice_refused :
      (a : Advice) (e : Error)
      → find? (advice_pk k) db.advices ≡ some a
      → review_error d reason expected a (find? (concern_pk a.concern) db.concerns) ≡ some e
      → review_advice env k actor d reason expected db ≡ (err e, db)
  unfolding review_advice
  review_advice_refused a e found h = ground arith

  review_advice_missing :
      find? (advice_pk k) db.advices ≡ none
      → review_advice env k actor d reason expected db ≡ (err (no_match "Advice"), db)
  unfolding review_advice
  review_advice_missing e = ground arith

  -- With no check failed the concern is there, and alive.
  review_error-none :
      (a : Advice) (oc : Option Concern)
      → review_error d reason expected a oc ≡ none
      → (c : Concern) × (oc ≡ some c)
        × (is_reviewable d reason expected a ≡ true)
        × (is_alive c ≡ true)
  review_error-none a none h = absurd (ground arith)
  review_error-none a (some c) h = (c, refl, ground arith, ground arith)

  pub review_advice_cases :
      ((e : Error) × (review_advice env k actor d reason expected db ≡ (err e, db)))
      ⊎ ((a : Advice) × (c : Concern) × (find? (advice_pk k) db.advices ≡ some a)
          × (is_reviewable d reason expected a ≡ true)
          × (find? (concern_pk a.concern) db.concerns ≡ some c)
          × (review_advice env k actor d reason expected db ≡ (
            ok (reviewed env actor d reason a, record c { status = after_review d c.status }),
            reviewed_db env actor d reason a c db,
          )))
  review_advice_cases = elim (Option-cases (find? (advice_pk k) db.advices)) [
    | inl missing ↦ inl (no_match "Advice", review_advice_missing missing)
    | inr (a, e) ↦
        elim (Option-cases
          (review_error d reason expected a (find? (concern_pk a.concern) db.concerns))) [
            | inr (x, failed) ↦ inl (x, review_advice_refused a x e failed)
            | inl passed ↦
                let (c, f, g, alive) =
                  review_error-none a (find? (concern_pk a.concern) db.concerns) passed in
                inr (a, c, e, g, f, review_advice_written a c e g f alive)
          ]
  ]
