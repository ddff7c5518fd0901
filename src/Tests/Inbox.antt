-- ===== src/Tests/Inbox.antt =====
-- The theorems of Notifications, applied.
use chamneul.Base.{◌+◌, find?, ◌≡◌, Bool, false, none, some, ◌&&◌, nat_eq, count, arith}
use chamneul.Models.Notifications.{Notification, NotificationType}
use chamneul.Common.Exec.{answer, after}
use chamneul.Notifications.{is_mine, mark_read, unread_count, list_my_notifications, matches_kind}
use chamneul.Notifications.Inbox.{
  HasKeys, seen, unread_count-mark_read, mark_read_idempotent, IsNewestFirst, is_wanted,
  list_my_notifications_lem,
}
use chamneul.Tests.Samples.{env, later_env, db}

db-HasKeys : HasKeys db
db-HasKeys k = ground arith

unread_count-mark_read_example :
    unread_count 1 (after (mark_read env 1 60 db)) + seen 1 (find? (is_mine 1 60) db.notifications)
    ≡ unread_count 1 db
unread_count-mark_read_example = unread_count-mark_read env 1 60 1 db db-HasKeys

abbrev is_approval : Notification → Bool
is_approval n = matches_kind (some NotificationType.advice_approved) n

list_my_notifications_lem_example :
    IsNewestFirst (list_my_notifications 1 (some false) none db)
    × (count is_approval (list_my_notifications 1 (some false) none db)
        ≡ count
            (λ n. nat_eq n.recipient 1 && (is_wanted (some false) none n && is_approval n))
            db.notifications)
list_my_notifications_lem_example = list_my_notifications_lem 1 (some false) none db is_approval

mark_read_idempotent_example :
    mark_read later_env 1 60 (after (mark_read env 1 60 db))
    ≡ (answer (mark_read env 1 60 db), after (mark_read env 1 60 db))
mark_read_idempotent_example = mark_read_idempotent env later_env 1 60 db
