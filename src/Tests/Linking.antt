-- ===== src/Tests/Linking.antt =====
-- The theorems of Accounts/Linking, applied.
use chamneul.Base.{◌≡◌, refl, true, false, [], ◌∷◌, any}
use chamneul.Common.Errors.{does_not_exist}
use chamneul.Common.Exec.{ok, answer, after}
use chamneul.Accounts.Passwords.{belongs_to}
use chamneul.Accounts.Nicknames.{Draws}
use chamneul.Accounts.Linking.{first_free, link_or_create_google_user, without_password}
use chamneul.Accounts.Linking.Takeover.{
  keeps_password, link_or_create_google_user_ends_access, is_ok, first_free_answers,
}
use chamneul.Tests.Accounts.{framework}
use chamneul.Tests.Samples.{env, asker, db}

abbrev draws : Draws
draws = record { suffix = λ i. "0007"; hex = "0190abcd" }

-- The address is that of the asker.
link_answer :
    answer (link_or_create_google_user framework env 0 draws "sub" "asker" "이름" db)
    ≡ ok (without_password framework env 0 asker)
unfolding link_or_create_google_user
link_answer = refl

link_or_create_google_user_ends_access_example :
    (any
        (belongs_to 1)
        (after (link_or_create_google_user framework env 0 draws "sub" "asker" "이름" db)).sessions
      ≡ false)
    × (any
          (keeps_password framework 0 1)
          (after (link_or_create_google_user framework env 0 draws "sub" "asker" "이름" db)).users
        ≡ false)
link_or_create_google_user_ends_access_example =
    link_or_create_google_user_ends_access framework env 0 draws "sub" "asker" "이름" db asker
      (without_password framework env 0 asker) refl refl refl link_answer

-- The first candidate is taken.
first_free_answers_example :
    is_ok (
      answer
        (first_free framework env 0 0 "new" "sub" ("asker" ∷ "asker_0007" ∷ []) does_not_exist db))
    ≡ true
first_free_answers_example =
    first_free_answers framework env 0 "new" "sub" db refl refl refl (λ i. refl) 0
      ("asker" ∷ "asker_0007" ∷ []) does_not_exist refl refl
