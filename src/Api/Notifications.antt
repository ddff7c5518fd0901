-- ===== src/Api/Notifications.antt =====
-- notifications/views.py and notifications/serializers.py. `actor_user` and `payload` are stored and
-- never serialized.
use chamneul.Base.{ℕ, String, Bool, Option, map}
use chamneul.Models.{Env}
use chamneul.Models.Accounts.{User}
use chamneul.Models.Notifications.{Notification, NotificationType, TargetUrl}
use chamneul.Common.Exec.{Exec, Result, pure, gets, ◌>>=◌}
use chamneul.Common.Requests.{Reply, replies, Gate, dispatch}
use chamneul.Common.Pagination.{Paginator, Paging, Listing, list_view}
use chamneul.Notifications.{list_my_notifications, unread_count, get_my_notification, mark_read}
use chamneul.Api.Permissions.{authenticated}
use chamneul.Api.Queries.{with_query}

pub record NotificationRow : Type 0 where
  pub notification_id : ℕ
  pub kind : NotificationType
  pub title : String
  pub message : String
  pub target_url : TargetUrl
  pub is_read : Bool
  pub created_at : ℕ

unfoldable pub notification_row : Notification → NotificationRow
notification_row n = record {
  notification_id = n.id;
  kind = n.kind;
  title = n.title;
  message = n.message;
  target_url = n.target_url;
  is_read = n.is_read;
  created_at = n.created_at;
}

-- #40: the fields of a row, and `read_at`.
pub record NotificationDetail : Type 0 where
  pub row : NotificationRow
  pub read_at : Option ℕ

unfoldable pub notification_detail : Notification → NotificationDetail
unfolding notification_row
notification_detail n = record { row = notification_row n; read_at = n.read_at }

pub record NotificationReadResult : Type 0 where
  pub notification_id : ℕ
  pub is_read : Bool
  pub read_at : Option ℕ

unfoldable pub notification_read_result : Notification → NotificationReadResult
notification_read_result n = record {
  notification_id = n.id;
  is_read = n.is_read;
  read_at = n.read_at;
}

-- The envelope of #39, to which the view adds the unread count.
pub record NotificationListing : Type 0 where
  pub listing : Listing NotificationRow
  pub unread_count : ℕ

-- The validated query of #39.
pub record NotificationQuery : Type 0 where
  pub is_read : Option Bool
  pub kind : Option NotificationType

module _ (g : Gate) where
  -- #39
  unfoldable pub get_notifications :
      Paginator → Paging → Result NotificationQuery → Option User → Exec (Reply NotificationListing)
  get_notifications pg q query u = dispatch g (authenticated g) u λ user.
      with_query query λ filters. do
        response ←
            list_view pg q (λ db. map notification_row)
              (list_my_notifications user.id filters.is_read filters.kind)
        unread ← gets (unread_count user.id)
        pure (replies response.status (record { listing = response.body; unread_count = unread }))

  -- #40
  unfoldable pub get_notification : ℕ → Option User → Exec (Reply NotificationDetail)
  unfolding notification_detail
  get_notification k u = dispatch g (authenticated g) u λ user. do
    notification ← get_my_notification user.id k
    pure (replies 200 (notification_detail notification))

  -- #41
  unfoldable pub patch_read : Env → ℕ → Option User → Exec (Reply NotificationReadResult)
  unfolding notification_read_result
  patch_read env k u = dispatch g (authenticated g) u λ user. do
    notification ← mark_read env user.id k
    pure (replies 200 (notification_read_result notification))
