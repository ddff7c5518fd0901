-- ===== src/Lib.antt =====
-- A model of chamneul, a counselling service: users file concerns, admins assign them to advisors,
-- advisors write advices, admins review these, and the owners of the concerns read and rate them.
-- The numbers (#24 and so on) are those of the API operations in the docstrings of the source.
--
-- The parts, and where they are modelled:
-- - Models: the tables (accounts/models.py, advisors/models.py, concerns/models.py, advice/models.py,
--   notifications/models.py, common/taxonomy.py). `Db` has one list of rows for each model, in the
--   order of insertion; a record has the columns of its model, an enum the values of its choices.
-- - Common: the errors (common/exceptions.py, with those of accounts/views.py and of the framework),
--   and `Exec`, in which a service call is written: it reads and writes the database, and answers
--   or raises; Envelope and Answers (api_exception_handler in common/exceptions.py, and
--   common/authentication.py), Requests (how the framework dispatches a request to a view),
--   Pagination and Pages (common/pagination.py).
-- - Accounts: Roles (set_active_role, grant_role, revoke_role and the reads of roles in
--   accounts/services.py, and common/permissions.py), Saving (User.save, update_profile),
--   Passwords (request_password_reset, confirm_password_reset), Linking, with Nicknames
--   (link_or_create_google_user), and Creating (create_user and create_superuser in
--   accounts/managers.py).
-- - Concerns: concerns/services.py; the operations in Concerns.antt, the reads in Concerns/Reading.antt
--   and Concerns/Admin.antt. A concern is SUBMITTED, ASSIGNED, ANSWERED or CLOSED; #24 and #25 move
--   it between the first two, #33 to the third. Concerns/Bulk.antt has the three bulk actions of
--   concerns/admin.py, of which one moves it to the fourth.
-- - Advice: the advices of advice/services.py; the operations in Advice.antt, the reads in
--   Advice/Reading.antt. Feedback: the feedbacks of the same file.
-- - Advisors: advisors/services.py. An approval grants the role of Accounts.
-- - Notifications: notifications/services.py. The rows are written by Concerns, Advice and Advisors.
-- - Lifecycle: runs of the operations on one database, in any order: those that write concerns and
--   assignments, and in Roles, Histories and Applications those that write roles, advices and
--   applications.
-- - Api: the views and the serializers. Users, Sessions, SessionViews and Oauth (accounts/views.py,
--   accounts/serializers.py, accounts/oauth.py and the converter of accounts/urls.py), Advisors
--   (advisors/), Concerns and Assigned (concerns/), Advice, AdviceViews and Feedback (advice/),
--   Notifications (notifications/), in each the handlers by their method and their path, and a record
--   for the fields of each response. Requests has the requests of signed-in users as one data type
--   and `serve`, which gives each to its handler, to speak of all handlers at once (Gatekeeping, Reads,
--   Refines). Renewal has what follows a handler: the renewal of the session, under the two
--   settings of config/settings/base.py.
-- - Base: lists under Boolean tests (a queryset is a filter, `exists()` is any, `first()` is find?,
--   an UPDATE is update), ordering, and texts. Tests: a small database, and the theorems applied.
--
-- How the code is read:
-- - Ids and instants are natural numbers. What a request draws from outside is `Env`: one time for
--   the whole request, and its uuid7 values in order. That an id is fresh is a hypothesis where a
--   theorem needs it.
-- - A service call is one step on the database, with no other request in between;
--   `transaction.atomic` rolls the writes back when the body raises. For #38, which takes no lock,
--   the read and the write are also two steps (move_feedback).
-- - What is said of the writes of a request is said of its handler; the renewal of its session, which
--   the middleware does after the handler, is in Api/Renewal.antt alone. The program itself does not read
--   the expiry of a session.
-- - A unique constraint is a test before the insertion, and its failure an integrity error. Foreign
--   keys are ids; that they point to rows is not part of the model, and a row that is missing where
--   the code follows one is the error that the code would raise, or a row that the join drops.
-- - A partial update has an optional value for each field that may be sent. What the framework makes
--   of a body or of a query, by the types, lengths and ranges of its fields, is an argument of a
--   handler, as the validated data or the error; the checks that the serializers write themselves are
--   modelled. Of several faulty fields of a sign-up, the first is the one that is told.
-- - What the framework does for the views is a parameter, with its documented behaviour as laws:
--   its handler of exceptions (ErrorHandling), the check of permission classes (Gate), its page
--   paginator (Paginator), authenticate, login and logout (Auth), the middleware of the sessions
--   (SessionMiddleware), the lookups of the database (Lookups), and the endpoints of Google (Google). Tests/Framework.antt has one instance of each.
-- - The texts of target_url are the templates that they are made from; ids in payloads are numbers;
--   the numbers in a JSON value are naturals. The order of rows that are equal under `order_by` is
--   that of the table.
-- - The password hasher, the token generator, the validators and the normalization of addresses of
--   the framework are a parameter (Accounts.Passwords.Framework); what is drawn at random is an
--   argument.
-- - Every recursion is on the structure of a list or a text, so that no fuel is used.
--
-- Not modelled: the validation of fields by the framework, the CSRF cookie (#44) and the redirect to
-- Google (#5), which touch no state, the other settings and the URL tables, the columns, filters and
-- permissions of the admin pages, which are declarations to the framework; mails and HTTP, which are
-- I/O; and the
-- interleaving of two requests, but for #38.
pub mod Base
pub mod Models
pub mod Common
pub mod Concerns
pub mod Accounts
pub mod Notifications
pub mod Advisors
pub mod Advice
pub mod Feedback
pub mod Api
pub mod Lifecycle
pub mod Tests
