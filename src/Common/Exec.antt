-- ===== src/Common/Exec.antt =====
-- A service call: it reads and writes the database, and may raise. What was written before a raise
-- stays written, unless a `transaction.atomic()` block rolls it back.
use chamneul.Base.{String, Bool, true, false, Option, none, some, text_append}
use chamneul.Models.{Db}
use chamneul.Common.Errors.{Error, not_found, integrity_error}

pub data Result {ℓ} (A : Type ℓ) : Type ℓ where
  ok : A → Result A
  err : Error → Result A

abbrev pub Exec : Type 0 → Type 0
Exec A = Db → Result A × Db

abbrev pub on_integrity : Error → Error → Error
on_integrity e' (integrity_error _) = e'
on_integrity e' e = e

-- The `Http404` of `get_object_or_404`.
abbrev pub no_match : String → Error
no_match model = not_found (text_append (text_append "No " model) " matches the given query.")

module _ {A : Type 0} where
  abbrev pub pure : A → Exec A
  pure a db = (ok a, db)

  abbrev pub raise : Error → Exec A
  raise e db = (err e, db)

  abbrev pub gets : (Db → A) → Exec A
  gets f db = (ok (f db), db)

  -- What a call that reads and writes nothing answers, as it is.
  abbrev pub lift : Result A → Exec A
  lift r db = (r, db)

  abbrev pub or_raise : Option A → Error → Exec A
  or_raise none e = raise e
  or_raise (some a) _ = pure a

  -- `get_object_or_404`, by the name of the model
  abbrev pub get_or_404 : String → (Db → Option A) → Exec A
  get_or_404 model f db = or_raise (f db) (no_match model) db

  abbrev pub rolled_back : Db → Result A × Db → Result A × Db
  rolled_back db (ok a, db') = (ok a, db')
  rolled_back db (err e, _) = (err e, db)

  -- `with transaction.atomic():`
  abbrev pub atomic : Exec A → Exec A
  atomic m db = rolled_back db (m db)

  abbrev pub reraised : (Error → Error) → Result A × Db → Result A × Db
  reraised f (ok a, db) = (ok a, db)
  reraised f (err e, db) = (err (f e), db)

  -- `try: m except IntegrityError as exc: raise e from exc`
  abbrev pub catch_integrity : Exec A → Error → Exec A
  catch_integrity m e db = reraised (on_integrity e) (m db)

infixl 5 ◌>>=◌ ◌>>◌
abbrev pub ◌>>=◌ : {A B : Type 0} → Exec A → (A → Exec B) → Exec B
◌>>=◌ m f db = let (r, db') = m db in elim r [ ok a ↦ f a db' | err e ↦ raise e db' ]

abbrev pub ◌>>◌ : {A B : Type 0} → Exec A → Exec B → Exec B
m >> k = m >>= λ _. k

abbrev pub raise_if : Bool → Error → Exec (Unit {0})
raise_if true e = raise e
raise_if false e = pure tt

-- An `if` with no `else`.
abbrev pub when : Bool → Exec (Unit {0}) → Exec (Unit {0})
when true m = m
when false m = pure tt

abbrev pub modify : (Db → Db) → Exec (Unit {0})
modify f db = (ok tt, f db)

-- What was answered, and the database that it left.
abbrev pub answer : {A : Type 0} → Result A × Db → Result A
answer r = r.0

abbrev pub after : {A : Type 0} → Result A × Db → Db
after r = r.1
