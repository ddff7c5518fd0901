-- ===== src/Tests/Advice.antt =====
-- The theorems of Advice and Feedback, applied.
use chamneul.Base.{
  update, ◌++◌, ◌∷◌, [], ◌≤◌, ◌≡◌, refl, true, none, some, [], ◌∷◌, ◌++◌, any, find?, if◌then◌else◌,
}
use chamneul.Models.{Db}
use chamneul.Base.Order.{newest_first, order_by, insert}
use chamneul.Advice.Reading.{list_advices_for_admin_review}
use chamneul.Models.Concerns.{ConcernStatus}
use chamneul.Models.Advice.{Feedback, FeedbackStatus}
use chamneul.Common.Errors.{precondition_failed}
use chamneul.Common.Exec.{ok, err, answer, after}
use chamneul.Advice.{update_advice, review_advice, Decision, edited, body_changed, advice_pk}
use chamneul.Advice.Effects.{review_advice_refused, edited_db}
use chamneul.Advice.Decisions.{decided_row, moved_rows, told, review_advice_granted}
use chamneul.Advice.History.{HistoriesHold, update_advice_total}
use chamneul.Advice.Reading.{get_visible_advice, list_received_advices}
use chamneul.Advice.Exposure.{is_row, shows_owner, list_received_advices-get_visible_advice}
use chamneul.Advice.Reviewing.{is_reviewed_ok, list_advices_for_admin_review-review_advice}
use chamneul.Feedback.{
  FeedbackCreate, create_feedback, new_feedback, feedback_pk, transition_feedback, move_feedback,
}
use chamneul.Feedback.Flow.{
  is_answered, may_answer, create_feedback_exactly, rank, rank_of, transition_feedback_forward,
  move_feedback_stale,
}
use chamneul.Base.Runs.{Run}
use chamneul.Lifecycle.Histories.{AdviceStep, Run-HistoriesHold}
use chamneul.Tests.Samples.{
  env, later_env, last_env, db, db-HistoriesHold, db-AreTracked, advice_patch, advice,
  approved_advice, feedback, taken_concern, asker,
}

update_advice_total_example : update_advice env 30 2 advice_patch db ≡ (
  ok (edited env advice_patch (body_changed advice_patch advice) advice),
  edited_db env 2 advice_patch advice db,
)
update_advice_total_example =
    update_advice_total env 30 2 advice_patch db db-HistoriesHold advice refl refl

-- The reviewer has read version 2.
review_advice_refused_example :
    review_advice env 30 3 Decision.approved "" 2 db ≡ (err precondition_failed, db)
review_advice_refused_example =
    review_advice_refused env 30 3 Decision.approved "" 2 db advice precondition_failed refl refl

review_advice_granted_example : review_advice env 30 3 Decision.approved "" 1 db ≡ (
  ok (
    decided_row env 3 Decision.approved "" advice,
    record taken_concern { status = ConcernStatus.answered },
  ),
  record db {
    advices = update (advice_pk 30) (decided_row env 3 Decision.approved "") db.advices;
    concerns = moved_rows Decision.approved 10 ConcernStatus.assigned db.concerns;
    notifications = db.notifications ++ told env 3 Decision.approved "" advice taken_concern ∷ [];
  },
)
review_advice_granted_example =
    review_advice_granted env 30 3 Decision.approved "" 1 db advice taken_concern refl refl refl
      refl

list_received_advices-get_visible_advice_example :
    any (is_row 31) (list_received_advices 1 db)
    ≡ shows_owner (answer (get_visible_advice 31 asker db))
list_received_advices-get_visible_advice_example =
    list_received_advices-get_visible_advice asker 31 db db-HistoriesHold.advice_keys
      db-AreTracked.concern_keys refl refl

in_queue : any (advice_pk 30) (list_advices_for_admin_review none db) ≡ true
unfolding list_advices_for_admin_review newest_first order_by insert
in_queue = refl

list_advices_for_admin_review-review_advice_example :
    is_reviewed_ok (answer (review_advice env 30 3 Decision.approved "" 1 db)) ≡ true
list_advices_for_admin_review-review_advice_example =
    list_advices_for_admin_review-review_advice env 30 3 "" advice db
      (db-HistoriesHold.advice_keys 30) db-AreTracked.concern_keys refl in_queue

abbrev feedback_create : FeedbackCreate
feedback_create = record { score = 4; content = none }

create_feedback_exactly_example :
    (is_answered (answer (create_feedback env 31 1 feedback_create db))
      ≡ may_answer 1 approved_advice taken_concern db)
    × (after (create_feedback env 31 1 feedback_create db) ≡ (
        if may_answer 1 approved_advice taken_concern db
        then record db { feedbacks = db.feedbacks ++ new_feedback env 31 1 feedback_create ∷ [] }
        else db))
create_feedback_exactly_example =
    create_feedback_exactly env 31 1 feedback_create db approved_advice taken_concern refl refl

transition_feedback_forward_example :
    (g : Feedback) × (find?
        (feedback_pk 40)
        (after (transition_feedback env 40 3 FeedbackStatus.reviewed none db)).feedbacks
      ≡ some g)
    × (0 ≤ rank g.status)
    × (rank g.status ≤ 1)
transition_feedback_forward_example =
    transition_feedback_forward env 40 3 FeedbackStatus.reviewed none db feedback refl

abbrev archived : Db
archived = after (
    transition_feedback later_env 40 4 FeedbackStatus.archived none
      (after (transition_feedback env 40 3 FeedbackStatus.reviewed none db)))

move_feedback_stale_example :
    (rank_of (find? (feedback_pk 40) archived.feedbacks) ≡ 2)
    × (rank_of (
          find?
            (feedback_pk 40)
            (after
              (move_feedback last_env 4 FeedbackStatus.reviewed none feedback archived)).feedbacks)
        ≡ 1)
move_feedback_stale_example =
    move_feedback_stale last_env env later_env 40 4 3 4 db feedback refl refl

Run-HistoriesHold_example : HistoriesHold (
    after (
      review_advice later_env 30 3 Decision.approved "" 2
        (after (update_advice env 30 2 advice_patch db))))
Run-HistoriesHold_example =
    Run-HistoriesHold
      (Run.later (Run.later Run.here (AdviceStep.edited env 30 2 advice_patch))
        (AdviceStep.reviewed later_env 30 3 Decision.approved "" 2))
      db-HistoriesHold
