-- ===== src/Notifications/Inbox.antt =====
-- `mark_read`, `unread_count` and `list_my_notifications` of notifications/services.py.
use chamneul.Base.{
  ◌<◌, ◌≤◌, ◌⊎◌, inl, inr, not, ap, ltb, ◌==◌, refl, ℕ, ◌+◌, ◌≤◌, ◌≡◌, refl, ◌∙◌, Bool, true, false,
  Option, none, some, List, [], ◌∷◌, ◌&&◌, nat_eq, arith, inl, inr, if◌then◌else◌, filter, find?,
  count, update, All, Bool-cases, Option-cases,
}
use chamneul.Base.Rows.{
  find?-narrow, found_by_key, find?-update_any, count-update_found, count-filter_and, All-imp,
}
use mathlib.Core.Path.{fun_ext}
use chamneul.Models.{Db, Env}
use chamneul.Models.Notifications.{Notification, NotificationType, notification_type_Eq}
use chamneul.Common.Exec.{no_match, ok, err, answer, after}
use chamneul.Notifications.{
  is_mine, is_unread_of, unread_count, read_now, mark_read, list_my_notifications, newest_first,
  insert, is_newer, matches_kind, matches_read,
}

-- Ids are unique.
abbrev pub HasKeys : Db → Type 0
HasKeys db = (k : ℕ) → count (λ (n : Notification). nat_eq n.id k) db.notifications ≤ 1

abbrev marked_db : Env → Notification → Db → Db
marked_db env n db = if n.is_read then db else record db {
  notifications = update (λ m. nat_eq m.id n.id) (read_now env) db.notifications;
}

abbrev shown : Env → Notification → Notification
shown env n = if n.is_read then n else read_now env n

module _ (env : Env) (user k : ℕ) (db : Db) where
  mark_read_found :
      (n : Notification)
      → find? (is_mine user k) db.notifications ≡ some n
      → mark_read env user k db ≡ (ok (shown env n), marked_db env n db)
  unfolding mark_read
  mark_read_found n e = ground arith

  mark_read_missing :
      find? (is_mine user k) db.notifications ≡ none
      → mark_read env user k db ≡ (err (no_match "Notification"), db)
  unfolding mark_read
  mark_read_missing e = ground arith

module _ (env later : Env) (user k : ℕ) (db : Db) (n : Notification)
    (e : find? (is_mine user k) db.notifications ≡ some n) where
  marked : find? (is_mine user k) (marked_db env n db).notifications ≡ some (shown env n)
  marked = ground (
    arith,
    e,
    find?-update_any (is_mine user k) (λ m. nat_eq m.id n.id) (read_now env) db.notifications
        (λ x. refl),
  )

  again : mark_read later user k (marked_db env n db) ≡ (ok (shown env n), marked_db env n db)
  again = mark_read_found later user k (marked_db env n db) (shown env n) marked ∙ ground arith

-- #41 twice is #41 once: the second call gives the answer of the first, an error too and with the
-- time of the first reading, and writes nothing.
pub mark_read_idempotent :
    (env later : Env) (user k : ℕ) (db : Db)
    → mark_read later user k (after (mark_read env user k db))
      ≡ (answer (mark_read env user k db), after (mark_read env user k db))
mark_read_idempotent env later user k db =
    elim (Option-cases (find? (is_mine user k) db.notifications)) [
      | inl missing ↦
          rw (mark_read_missing env user k db missing) (mark_read_missing later user k db missing)
      | inr (n, e) ↦ rw (mark_read_found env user k db n e) (again env later user k db n e)
    ]

module _ (env : Env) (user k : ℕ) (db : Db) (keys : HasKeys db) (n : Notification)
    (e : find? (is_mine user k) db.notifications ≡ some n) where
  row : find? (λ m. nat_eq m.id n.id) db.notifications ≡ some n
  row =
      found_by_key (λ (m : Notification). m.id) k n db.notifications
        (find?-narrow (is_mine user k) (λ m. nat_eq m.id k) db.notifications n (λ x h. ground arith)
          e (keys k))

  counts :
      (v : ℕ)
      → unread_count v (marked_db env n db) + (if is_unread_of v n then 1 else 0)
        ≡ unread_count v db
  unfolding unread_count
  counts v = ground (
    arith,
    count-update_found (is_unread_of v) (λ m. nat_eq m.id n.id) (read_now env) db.notifications n
        (keys n.id) row,
  )

-- What the first reading of a row takes from the badge of `v`.
abbrev pub seen : ℕ → Option Notification → ℕ
seen v none = 0
seen v (some n) = if is_unread_of v n then 1 else 0

-- Where the ids of notifications are unique, #41 lowers the unread count of its caller by one if it
-- finds an unread row of the caller, and changes no other count: the count of any user after it,
-- plus one if that user is the recipient of the unread row that was found, is the count before it.
pub unread_count-mark_read :
    (env : Env) (user k v : ℕ) (db : Db)
    → HasKeys db
    → unread_count v (after (mark_read env user k db))
        + seen v (find? (is_mine user k) db.notifications)
      ≡ unread_count v db
unread_count-mark_read env user k v db keys =
    elim (Option-cases (find? (is_mine user k) db.notifications)) [
      | inl missing ↦ rw (mark_read_missing env user k db missing, missing) (omega arith)
      | inr (n, e) ↦ rw (mark_read_found env user k db n e, e) (counts env user k db keys n e v)
    ]

-- The order of #39: an earlier row is at least as new, and of equal times the greater id is first.
abbrev pub IsOlder : Notification → Notification → Type 0
IsOlder n m = (m.created_at < n.created_at) ⊎ ((m.created_at ≡ n.created_at) × (m.id ≤ n.id))

abbrev pub IsNewestFirst : List Notification → Type 0
IsNewestFirst [] = Unit
IsNewestFirst (n ∷ rows) = All (IsOlder n) rows × IsNewestFirst rows

-- The two filters: the state of reading, and the type, where they are given.
abbrev pub is_wanted : Option Bool → Option NotificationType → Notification → Bool
is_wanted none none n = true
is_wanted none (some t) n = t == n.kind
is_wanted (some true) none n = n.is_read
is_wanted (some true) (some t) n = n.is_read && t == n.kind
is_wanted (some false) none n = not n.is_read
is_wanted (some false) (some t) n = not n.is_read && t == n.kind

-- The same order, by the test of the code.
abbrev AreSorted : List Notification → Type 0
AreSorted [] = Unit
AreSorted (n ∷ rows) = All (λ m. is_newer m n ≡ false) rows × AreSorted rows

not_newer-IsOlder : (n m : Notification) → is_newer m n ≡ false → IsOlder n m
not_newer-IsOlder n m h = elim (Bool-cases (ltb m.created_at n.created_at)) [
  | inl before ↦ inl (ground arith)
  | inr same ↦ inr (ground arith, ground arith)
]

AreSorted-IsNewestFirst : (rows : List Notification) → AreSorted rows → IsNewestFirst rows
AreSorted-IsNewestFirst [] h = tt
AreSorted-IsNewestFirst (n ∷ rows) h = (
  All-imp (λ m. is_newer m n ≡ false) (IsOlder n) rows h.0 (λ m q. not_newer-IsOlder n m q),
  AreSorted-IsNewestFirst rows h.1,
)

not_newer_trans :
    (a b c : Notification) → is_newer a b ≡ false → is_newer b c ≡ false → is_newer a c ≡ false
not_newer_trans a b c h k = ground arith

not_newer_flip : (a b : Notification) → is_newer a b ≡ true → is_newer b a ≡ false
not_newer_flip a b h = ground arith

insert-All :
    (P : Notification → Type 0) (n : Notification) (rows : List Notification)
    → P n
    → All P rows
    → All P (insert n rows)
unfolding insert
insert-All P n [] p h = (p, tt)
insert-All P n (m ∷ rows) p h = elim (Bool-cases (is_newer m n)) [
  | inl newer ↦ rw newer (h.0, insert-All P n rows p h.1)
  | inr older ↦ rw older (p, h)
]

insert-AreSorted :
    (n : Notification) (rows : List Notification) → AreSorted rows → AreSorted (insert n rows)
unfolding insert
insert-AreSorted n [] h = (tt, tt)
insert-AreSorted n (m ∷ rows) h = elim (Bool-cases (is_newer m n)) [
  | inl newer ↦ rw newer (
    insert-All (λ x. is_newer x m ≡ false) n rows (not_newer_flip m n newer) h.0,
    insert-AreSorted n rows h.1,
  )
  | inr older ↦ rw older (
    (
      older,
      All-imp (λ x. is_newer x m ≡ false) (λ x. is_newer x n ≡ false) rows h.0
          (λ x q. not_newer_trans x m n q older),
    ),
    h,
  )
]

newest_first-AreSorted : (rows : List Notification) → AreSorted (newest_first rows)
unfolding newest_first
newest_first-AreSorted [] = tt
newest_first-AreSorted (n ∷ rows) =
    insert-AreSorted n (newest_first rows) (newest_first-AreSorted rows)

filter-All :
    (P : Notification → Type 0) (q : Notification → Bool) (rows : List Notification)
    → All P rows
    → All P (filter q rows)
filter-All P q [] h = tt
filter-All P q (n ∷ rows) h = elim (Bool-cases (q n)) [
  | inl keep ↦ rw keep (h.0, filter-All P q rows h.1)
  | inr drop ↦ rw drop (filter-All P q rows h.1)
]

filter-AreSorted :
    (q : Notification → Bool) (rows : List Notification)
    → AreSorted rows
    → AreSorted (filter q rows)
filter-AreSorted q [] h = tt
filter-AreSorted q (n ∷ rows) h = elim (Bool-cases (q n)) [
  | inl keep ↦
      rw keep (filter-All (λ m. is_newer m n ≡ false) q rows h.0, filter-AreSorted q rows h.1)
  | inr drop ↦ rw drop (filter-AreSorted q rows h.1)
]

count-insert :
    (p : Notification → Bool) (n : Notification) (rows : List Notification)
    → count p (insert n rows) ≡ count p (n ∷ rows)
unfolding insert
count-insert p n [] = refl
count-insert p n (m ∷ rows) = ground (arith, count-insert p n rows)

count-newest_first :
    (p : Notification → Bool) (rows : List Notification)
    → count p (newest_first rows) ≡ count p rows
unfolding newest_first
count-newest_first p [] = refl
count-newest_first p (n ∷ rows) =
    ground (arith, count-insert p n (newest_first rows), count-newest_first p rows)

-- The two filters of the code are the one above.
wanted :
    (is_read : Option Bool) (kind : Option NotificationType) (p : Notification → Bool)
    (n : Notification)
    → (matches_read is_read n && (matches_kind kind n && p n)) ≡ (is_wanted is_read kind n && p n)
wanted none none p n = refl
wanted none (some t) p n = ground arith
wanted (some true) none p n = ground arith
wanted (some true) (some t) p n = ground arith
wanted (some false) none p n = ground arith
wanted (some false) (some t) p n = ground arith

-- #39 puts no row behind an older one, in time and, of equal times, by the id, and, by any test,
-- lists as many rows as the table has of the rows of the user that are read or unread as asked for,
-- of the type that is asked for, and pass the test.
pub list_my_notifications_lem :
    (user : ℕ) (is_read : Option Bool) (kind : Option NotificationType) (db : Db)
    (p : Notification → Bool)
    → IsNewestFirst (list_my_notifications user is_read kind db)
      × (count p (list_my_notifications user is_read kind db)
          ≡ count
              (λ n. nat_eq n.recipient user && (is_wanted is_read kind n && p n))
              db.notifications)
unfolding list_my_notifications
list_my_notifications_lem user is_read kind db p =
    let own = filter (λ (n : Notification). nat_eq n.recipient user) db.notifications in
    (
      AreSorted-IsNewestFirst (list_my_notifications user is_read kind db) (
          filter-AreSorted (matches_kind kind) (filter (matches_read is_read) (newest_first own)) (
            filter-AreSorted (matches_read is_read) (newest_first own)
              (newest_first-AreSorted own))),
      count-filter_and p (matches_kind kind) (filter (matches_read is_read) (newest_first own))
          ∙ count-filter_and (λ n. matches_kind kind n && p n) (matches_read is_read)
              (newest_first own)
          ∙ count-newest_first (λ n. matches_read is_read n && (matches_kind kind n && p n)) own
          ∙ count-filter_and (λ n. matches_read is_read n && (matches_kind kind n && p n))
              (λ n. nat_eq n.recipient user) db.notifications
          ∙ ap (λ q. count (λ (n : Notification). nat_eq n.recipient user && q n) db.notifications)
              (fun_ext λ n. wanted is_read kind p n),
    )
