-- ===== src/Api/Renewal.antt =====
-- A whole request: the handler, then the middleware of the sessions, under the settings of
-- config/settings/base.py. The middleware is a parameter.
use chamneul.Base.{
  ℕ, ◌+◌, ◌*◌, ◌≡◌, Bool, true, false, Option, none, some, nat_eq, if◌then◌else◌, update,
  Bool-cases, inl, inr,
}
use chamneul.Models.{Db, Env}
use chamneul.Models.Accounts.{User, Session}
use chamneul.Common.Exec.{Exec, Result, ok, err, answer, after}
use chamneul.Common.Envelope.{is_unhandled}
use chamneul.Api.Requests.{Server, Request, serve}
use chamneul.Api.Reads.{is_get, serve_reads}

-- `SESSION_SAVE_EVERY_REQUEST` and `SESSION_COOKIE_AGE`
abbrev pub session_save_every_request : Bool
session_save_every_request = true

abbrev pub session_cookie_age : ℕ
session_cookie_age = 60 * 60 * 24 * 14

abbrev pub renewed : ℕ → Session → Session
renewed expiry s = record s { expire_date = expiry }

-- The middleware, by the two settings, the time, whether the response is a 500, and the key of the
-- session of the request. Under the first setting it saves the session after every response but a
-- 500, which moves its expiry on by the second; without a session there is nothing to save.
pub record SessionMiddleware : Type 0 where
  pub process_response : Bool → ℕ → ℕ → Bool → Option ℕ → Db → Db
  pub on_saved :
      (age now k : ℕ) (db : Db)
      → process_response true age now false (some k) db ≡ record db {
        sessions = update (λ s. nat_eq s.session_key k) (renewed (now + age)) db.sessions;
      }
  pub on_failed :
      (every : Bool) (age now : ℕ) (key : Option ℕ) (db : Db)
      → process_response every age now true key db ≡ db
  pub on_no_session :
      (every : Bool) (age now : ℕ) (failed : Bool) (db : Db)
      → process_response every age now failed none db ≡ db

-- An exception that the handler of exceptions leaves alone is a 500.
abbrev pub has_failed : Result ℕ → Bool
has_failed (ok status) = false
has_failed (err e) = is_unhandled e

unfoldable pub process_request :
    Server → SessionMiddleware → Env → Option ℕ → Request → Option User → Exec ℕ
process_request s m env key req u db =
    let (r, served) = serve s env req u db in
    (
      r,
      m.process_response session_save_every_request session_cookie_age env.now (has_failed r) key
          served,
    )

-- A GET request that is made under a session, of #7, #9, #12 to #14, #17, #18, #20 to #23, #26,
-- #27, #31, #32, #35 to #37, #39 and #40, leaves the database as it is, but for the expiry of that
-- session, which is moved to 14 days (1209600 seconds) after the request; where the response is a
-- 500, not even that. The middleware of the sessions is a parameter.
pub process_get_renews :
    (s : Server) (m : SessionMiddleware) (env : Env) (k : ℕ) (req : Request) (u : Option User)
    (db : Db)
    → is_get req ≡ true
    → after (process_request s m env (some k) req u db) ≡ (
        if has_failed (answer (serve s env req u db)) then db else record db {
          sessions =
              update
                (λ s. nat_eq s.session_key k)
                (λ s. record s { expire_date = env.now + 1209600 })
                db.sessions;
        })
unfolding process_request
process_get_renews s m env k req u db h =
    let kept = serve_reads s env req u db h in
    elim (Bool-cases (has_failed (answer (serve s env req u db)))) [
      | inl failed ↦ rw (failed, kept) (m.on_failed true session_cookie_age env.now (some k) db)
      | inr fine ↦ rw (fine, kept) (m.on_saved session_cookie_age env.now k db)
    ]
