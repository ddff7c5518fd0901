-- ===== src/Notifications.antt =====
-- notifications/services.py.
pub mod Inbox
use chamneul.Base.{
  ℕ, Bool, true, false, Option, none, some, List, [], ◌∷◌, ◌++◌, ◌&&◌, ◌||◌, not, ◌==◌, nat_eq, ltb,
  bool_Eq, if◌then◌else◌, filter, find?, count, update,
}
use chamneul.Models.{Db, Env}
use chamneul.Models.Notifications.{Notification, NotificationType, notification_type_Eq}
use chamneul.Common.Exec.{
  Exec, Result, ok, err, pure, get_or_404, atomic, ◌>>=◌, ◌>>◌, when, modify,
}

-- `Notification.objects.create`
unfoldable pub create_notification : Notification → Exec (Unit {0})
create_notification n = modify λ db. record db { notifications = db.notifications ++ n ∷ [] }

-- `Notification.objects.filter(recipient=user)`, at one key.
abbrev pub is_mine : ℕ → ℕ → Notification → Bool
is_mine user k n = nat_eq n.recipient user && nat_eq n.id k

-- `order_by("-created_at", "-id")`: whether `a` comes before `b`.
abbrev pub is_newer : Notification → Notification → Bool
is_newer a b = ltb b.created_at a.created_at || (nat_eq a.created_at b.created_at && ltb b.id a.id)

unfoldable pub insert : Notification → List Notification → List Notification
insert n [] = n ∷ []
insert n (m ∷ rows) = if is_newer m n then m ∷ insert n rows else n ∷ m ∷ rows

unfoldable pub newest_first : List Notification → List Notification
unfolding insert
newest_first [] = []
newest_first (n ∷ rows) = insert n (newest_first rows)

abbrev pub matches_read : Option Bool → Notification → Bool
matches_read none n = true
matches_read (some b) n = n.is_read == b

abbrev pub matches_kind : Option NotificationType → Notification → Bool
matches_kind none n = true
matches_kind (some t) n = n.kind == t

unfoldable pub list_my_notifications :
    ℕ → Option Bool → Option NotificationType → Db → List Notification
unfolding newest_first
list_my_notifications user is_read kind db = filter (matches_kind kind) (
    filter (matches_read is_read)
      (newest_first (filter (λ n. nat_eq n.recipient user) db.notifications)))

abbrev pub is_unread_of : ℕ → Notification → Bool
is_unread_of user n = nat_eq n.recipient user && not n.is_read

unfoldable pub unread_count : ℕ → Db → ℕ
unread_count user db = count (is_unread_of user) db.notifications

unfoldable pub get_my_notification : ℕ → ℕ → Exec Notification
get_my_notification user k =
    get_or_404 "Notification" (λ db. find? (is_mine user k) db.notifications)

abbrev pub read_now : Env → Notification → Notification
read_now env n = record n { is_read = true; read_at = some env.now }

unfoldable pub mark_read : Env → ℕ → ℕ → Exec Notification
unfolding get_my_notification
mark_read env user k = atomic do
  notification ← get_my_notification user k
  when (not notification.is_read) (
      modify λ db. record db {
        notifications = update (λ n. nat_eq n.id notification.id) (read_now env) db.notifications;
      })
  pure (if notification.is_read then notification else read_now env notification)
