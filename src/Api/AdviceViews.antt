-- ===== src/Api/AdviceViews.antt =====
-- The handlers of advice/views.py on advices. What `is_valid` makes of a body or a query is an
-- argument: the validated data, or the error that it raises.
use chamneul.Base.{ℕ, String, Bool, true, Option, none, some, ◌&&◌, ◌==◌, nat_eq, filter, map}
use chamneul.Models.{Env}
use chamneul.Models.Accounts.{User}
use chamneul.Models.Advice.{Advice, AdviceStatus, advice_status_Eq}
use chamneul.Models.Concerns.{ConcernStatus}
use chamneul.Common.Exec.{Exec, Result, pure, lift, ◌>>=◌, ◌>>◌}
use chamneul.Common.Requests.{Reply, replies, Gate, dispatch}
use chamneul.Common.Pagination.{Paginator, Paging, Listing, list_view}
use chamneul.Concerns.Reading.{joined}
use chamneul.Advice.{
  AdviceCreate, AdvicePatch, Decision, create_advice, update_advice, delete_advice, review_advice,
}
use chamneul.Advice.Reading.{
  list_advices_written_by, get_visible_advice, list_advices_for_admin_review, list_received_advices,
}
use chamneul.Api.Permissions.{authenticated, advisors_only, admins_only}
use chamneul.Api.Queries.{Lookups, has_keyword, is_since, is_until, with_concern, with_query}
use chamneul.Api.Advice.{
  AdviceCreateResult, advice_create_result, AdviceWrittenRow, advice_written_row, AdviceBody,
  advice_body, advisor_display_name, AdviceUpdateResult, AdminAdviceRow, admin_advice_row,
  AdviceWrittenQuery, ReceivedAdviceQuery, AdviceReview, ReceivedAdviceRow, received_advice_rows,
}

abbrev pub is_of_concern : Option ℕ → Advice → Bool
is_of_concern none a = true
is_of_concern (some k) a = nat_eq a.concern k

abbrev pub has_advice_status : Option AdviceStatus → Advice → Bool
has_advice_status none a = true
has_advice_status (some s) a = a.status == s

-- The filters of #31, in their order.
unfoldable pub matches_written : Lookups → AdviceWrittenQuery → Advice → Bool
matches_written t q a =
    is_of_concern q.concern_id a
    && has_advice_status q.status a
    && is_since t q.from_date a.created_at
    && is_until t q.to_date a.created_at

pub record ReviewAnswer : Type 0 where
  pub decision : Decision
  pub reviewed_by : Option ℕ
  pub reviewed_at : Option ℕ
  pub reason : String

pub record AdviceReviewResult : Type 0 where
  pub advice_id : ℕ
  pub status : AdviceStatus
  pub review : ReviewAnswer
  pub concern_id : ℕ
  pub concern_status : ConcernStatus
  pub version : ℕ

module _ (g : Gate) where
  -- #28
  unfoldable pub post_advice :
      Env → ℕ → Result AdviceCreate → Option User → Exec (Reply AdviceCreateResult)
  post_advice env concern_id serializer u = dispatch g (advisors_only g) u λ user. do
    data_ ← lift serializer
    advice ← create_advice env concern_id user.id data_
    pure (replies 201 (advice_create_result advice))

  -- #31
  unfoldable pub get_advices_written :
      Lookups
      → Paginator
      → Paging
      → Result AdviceWrittenQuery
      → Option User
      → Exec (Reply (Listing AdviceWrittenRow))
  get_advices_written t pg q query u = dispatch g (advisors_only g) u λ user.
      with_query query λ filters.
        list_view pg q (λ db. map advice_written_row)
          λ db. filter (matches_written t filters) (list_advices_written_by user.id db)

  -- #27
  unfoldable pub get_advice : ℕ → Option User → Exec (Reply AdviceBody)
  get_advice advice_id u = dispatch g (authenticated g) u λ user. do
    found ← get_visible_advice advice_id user
    name ← advisor_display_name found.0
    pure (replies 200 (advice_body found.1 found.0 name))

  -- #29
  unfoldable pub patch_advice :
      Env → ℕ → Result AdvicePatch → Option User → Exec (Reply AdviceUpdateResult)
  patch_advice env advice_id serializer u = dispatch g (advisors_only g) u λ user. do
    data_ ← lift serializer
    advice ← update_advice env advice_id user.id data_
    pure (
        replies 200 (record {
          advice_id = advice.id;
          status = advice.status;
          version = advice.version;
          updated_at = advice.updated_at;
        }))

  -- #30
  unfoldable pub delete_advice_view : ℕ → Option User → Exec (Reply (Unit {0}))
  delete_advice_view advice_id u =
      dispatch g (advisors_only g) u
        λ user. do delete_advice advice_id user.id; pure (replies 204 tt)

  -- #32
  unfoldable pub get_admin_advices :
      Paginator
      → Paging
      → Result (Option AdviceStatus)
      → Option User
      → Exec (Reply (Listing AdminAdviceRow))
  get_admin_advices pg q query u = dispatch g admins_only u λ user.
      with_query query
        λ status. list_view pg q (λ db. map admin_advice_row) (list_advices_for_admin_review status)

  -- #33
  unfoldable pub patch_review :
      Env → ℕ → Result AdviceReview → Option User → Exec (Reply AdviceReviewResult)
  patch_review env advice_id serializer u = dispatch g admins_only u λ user. do
    data_ ← lift serializer
    made ← review_advice env advice_id user.id data_.decision data_.reason data_.expected_version
    pure (
        replies 200 (record {
          advice_id = made.0.id;
          status = made.0.status;
          review = record {
            decision = data_.decision;
            reviewed_by = made.0.reviewed_by;
            reviewed_at = made.0.reviewed_at;
            reason = made.0.reject_reason;
          };
          concern_id = made.1.id;
          concern_status = made.1.status;
          version = made.0.version;
        }))

  -- #26
  unfoldable pub get_received_advices :
      Lookups
      → Paginator
      → Paging
      → Result ReceivedAdviceQuery
      → Option User
      → Exec (Reply (Listing ReceivedAdviceRow))
  get_received_advices t pg q query u = dispatch g (authenticated g) u λ user.
      with_query query λ filters. list_view pg q received_advice_rows λ db.
        filter
          (λ r.
            has_keyword t filters.keyword r.0.1.concern_summary
            && is_since t filters.from_date r.0.0.0.created_at
            && is_until t filters.to_date r.0.0.0.created_at)
          (joined (λ r. r.0.0.advisor)
            (with_concern (λ r. r.0.concern) (list_received_advices user.id db) db.concerns)
            db.users)
