-- ===== src/Api/Feedback.antt =====
-- The handlers of advice/views.py on feedbacks, with their serializers (advice/serializers.py).
use chamneul.Base.{ℕ, String, Option, none, some, List, [], ◌∷◌, find?, map}
use chamneul.Models.{Env}
use chamneul.Models.Accounts.{User}
use chamneul.Models.Advice.{Advice, Feedback, FeedbackStatus}
use chamneul.Common.Exec.{Exec, Result, pure, lift, get_or_404, ◌>>=◌}
use chamneul.Common.Requests.{Reply, replies, Gate, dispatch}
use chamneul.Common.Pagination.{Paginator, Paging, Listing, list_view}
use chamneul.Accounts.Roles.{user_pk}
use chamneul.Advice.{advice_pk}
use chamneul.Feedback.{
  FeedbackCreate, create_feedback, get_feedback, transition_feedback, list_feedbacks_for_admin,
  list_feedbacks_written_by,
}
use chamneul.Api.Permissions.{authenticated, admins_only}
use chamneul.Api.Queries.{with_query}

pub record FeedbackCreateResult : Type 0 where
  pub feedback_id : ℕ
  pub advice_id : ℕ
  pub status : FeedbackStatus
  pub created_at : ℕ

-- A row of #35: neither `memo` nor `reviewed_by`.
pub record MyFeedbackRow : Type 0 where
  pub feedback_id : ℕ
  pub advice_id : ℕ
  pub score : ℕ
  pub content : String
  pub status : FeedbackStatus
  pub created_at : ℕ

unfoldable pub my_feedback_row : Feedback → MyFeedbackRow
my_feedback_row f = record {
  feedback_id = f.id;
  advice_id = f.advice;
  score = f.score;
  content = f.content;
  status = f.status;
  created_at = f.created_at;
}

pub record AdminFeedbackRow : Type 0 where
  pub feedback_id : ℕ
  pub advice_id : ℕ
  pub advisor_user_id : ℕ
  pub author_user_id : ℕ
  pub score : ℕ
  pub status : FeedbackStatus
  pub created_at : ℕ

unfoldable pub admin_feedback_row : Feedback × Advice → AdminFeedbackRow
admin_feedback_row (f, a) = record {
  feedback_id = f.id;
  advice_id = f.advice;
  advisor_user_id = a.advisor;
  author_user_id = f.author;
  score = f.score;
  status = f.status;
  created_at = f.created_at;
}

pub record AdminFeedbackDetail : Type 0 where
  pub feedback_id : ℕ
  pub advice_id : ℕ
  pub advisor_user_id : ℕ
  pub author_user_id : ℕ
  pub author_nickname : String
  pub score : ℕ
  pub content : String
  pub status : FeedbackStatus
  pub reviewed_at : Option ℕ
  pub reviewed_by : Option ℕ
  pub memo : String
  pub created_at : ℕ

unfoldable pub admin_feedback_detail : Feedback → Advice → User → AdminFeedbackDetail
admin_feedback_detail f a author = record {
  feedback_id = f.id;
  advice_id = f.advice;
  advisor_user_id = a.advisor;
  author_user_id = f.author;
  author_nickname = author.nickname;
  score = f.score;
  content = f.content;
  status = f.status;
  reviewed_at = f.reviewed_at;
  reviewed_by = f.reviewed_by;
  memo = f.memo;
  created_at = f.created_at;
}

pub record FeedbackTransitionResult : Type 0 where
  pub feedback_id : ℕ
  pub status : FeedbackStatus
  pub reviewed_at : Option ℕ
  pub reviewed_by : Option ℕ

-- The validated query of #36 and the validated body of #38.
pub record AdminFeedbackQuery : Type 0 where
  pub status : Option FeedbackStatus
  pub score_min : Option ℕ
  pub score_max : Option ℕ

pub record FeedbackTransition : Type 0 where
  pub status : FeedbackStatus
  pub memo : Option String

-- `select_related("advice")`: rows joined with their advice.
abbrev pub join_advice :
    Feedback → Option Advice → List (Feedback × Advice) → List (Feedback × Advice)
join_advice f none rest = rest
join_advice f (some a) rest = (f, a) ∷ rest

unfoldable pub with_advice : List Feedback → List Advice → List (Feedback × Advice)
with_advice [] advices = []
with_advice (f ∷ rows) advices =
    join_advice f (find? (advice_pk f.advice) advices) (with_advice rows advices)

module _ (g : Gate) where
  -- #34
  unfoldable pub post_feedback :
      Env → ℕ → Result FeedbackCreate → Option User → Exec (Reply FeedbackCreateResult)
  post_feedback env advice_id serializer u = dispatch g (authenticated g) u λ user. do
    data_ ← lift serializer
    feedback ← create_feedback env advice_id user.id data_
    pure (
        replies 201 (record {
          feedback_id = feedback.id;
          advice_id = feedback.advice;
          status = feedback.status;
          created_at = feedback.created_at;
        }))

  -- #35
  unfoldable pub get_my_feedbacks :
      Paginator → Paging → Option User → Exec (Reply (Listing MyFeedbackRow))
  get_my_feedbacks pg q u =
      dispatch g (authenticated g) u
        λ user. list_view pg q (λ db. map my_feedback_row) (list_feedbacks_written_by user.id)

  -- #36
  unfoldable pub get_admin_feedbacks :
      Paginator
      → Paging
      → Result AdminFeedbackQuery
      → Option User
      → Exec (Reply (Listing AdminFeedbackRow))
  get_admin_feedbacks pg q query u = dispatch g admins_only u λ user. with_query query λ filters.
      list_view pg q (λ db. map admin_feedback_row)
        λ db.
          with_advice
            (list_feedbacks_for_admin filters.status filters.score_min filters.score_max db)
            db.advices

  -- #37
  unfoldable pub get_admin_feedback : ℕ → Option User → Exec (Reply AdminFeedbackDetail)
  get_admin_feedback feedback_id u = dispatch g admins_only u λ user. do
    feedback ← get_feedback feedback_id
    advice ← get_or_404 "Feedback" (λ db. find? (advice_pk feedback.advice) db.advices)
    author ← get_or_404 "Feedback" (λ db. find? (user_pk feedback.author) db.users)
    pure (replies 200 (admin_feedback_detail feedback advice author))

  -- #38
  unfoldable pub patch_feedback :
      Env → ℕ → Result FeedbackTransition → Option User → Exec (Reply FeedbackTransitionResult)
  patch_feedback env feedback_id serializer u = dispatch g admins_only u λ user. do
    data_ ← lift serializer
    feedback ← transition_feedback env feedback_id user.id data_.status data_.memo
    pure (
        replies 200 (record {
          feedback_id = feedback.id;
          status = feedback.status;
          reviewed_at = feedback.reviewed_at;
          reviewed_by = feedback.reviewed_by;
        }))
