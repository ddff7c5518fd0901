-- ===== src/Api/Aside.antt =====
-- Calls that write neither concerns nor assignments: those of accounts/, advisors/, notifications/, and of
-- advice/services.py but for the review.
use chamneul.Base.{String, ◌≡◌, refl, ◌∙◌, Bool, true, false, Option, none, some, if◌then◌else◌}
use chamneul.Models.{Db}
use chamneul.Common.Errors.{Error}
use chamneul.Common.Exec.{
  Exec, Result, ok, err, pure, raise, gets, lift, or_raise, get_or_404, no_match, atomic,
  rolled_back, catch_integrity, reraised, raise_if, when, modify, ◌>>=◌, ◌>>◌, after,
}

-- Neither table differs.
abbrev pub AreKept : Db → Db → Type 0
AreKept db db' = (db'.concerns ≡ db.concerns) × (db'.assignments ≡ db.assignments)

pub record IsAside {A : Type 0} (m : Exec A) : Type 0 where
  pub keeps : (db : Db) → AreKept db (after (m db))

kept : (db : Db) → AreKept db db
kept db = (refl, refl)

module _ {A : Type 0} where
  pub pure-IsAside : (a : A) → IsAside (pure a)
  pure-IsAside a = record { keeps = kept }

  pub raise-IsAside : (e : Error) → IsAside (raise {A = A} e)
  raise-IsAside e = record { keeps = kept }

  pub gets-IsAside : (f : Db → A) → IsAside (gets f)
  gets-IsAside f = record { keeps = kept }

  pub lift-IsAside : (r : Result A) → IsAside (lift r)
  lift-IsAside r = record { keeps = kept }

  pub or_raise-IsAside : (o : Option A) (e : Error) → IsAside (or_raise o e)
  or_raise-IsAside none e = record { keeps = kept }
  or_raise-IsAside (some a) e = record { keeps = kept }

  pub get_or_404-IsAside : (model : String) (f : Db → Option A) → IsAside (get_or_404 model f)
  get_or_404-IsAside model f = record {
    keeps = λ db. (or_raise-IsAside (f db) (no_match model)).keeps db;
  }

  rolled_back-kept :
      (db : Db) (r : Result A × Db) → AreKept db r.1 → AreKept db (after (rolled_back db r))
  rolled_back-kept db (ok a, db') h = h
  rolled_back-kept db (err e, db') h = kept db

  pub atomic-IsAside : (m : Exec A) → IsAside m → IsAside (atomic m)
  atomic-IsAside m h = record { keeps = λ db. rolled_back-kept db (m db) (h.keeps db) }

  reraised-kept :
      (f : Error → Error) (db : Db) (r : Result A × Db)
      → AreKept db r.1
      → AreKept db (after (reraised f r))
  reraised-kept f db (ok a, db') h = h
  reraised-kept f db (err e, db') h = h

  pub catch-IsAside : (m : Exec A) (e : Error) → IsAside m → IsAside (catch_integrity m e)
  catch-IsAside m e h = record { keeps = λ db. reraised-kept _ db (m db) (h.keeps db) }

  pub if-IsAside : (b : Bool) (m n : Exec A) → IsAside m → IsAside n → IsAside (if b then m else n)
  if-IsAside true m n h k = h
  if-IsAside false m n h k = k

  pub if-kept :
      (b : Bool) (db : Db) (r s : Result A × Db)
      → AreKept db r.1
      → AreKept db s.1
      → AreKept db (after {A = A} (if b then r else s))
  if-kept true db r s h k = h
  if-kept false db r s h k = k

pub raise_if-IsAside : (b : Bool) (e : Error) → IsAside (raise_if b e)
raise_if-IsAside true e = record { keeps = kept }
raise_if-IsAside false e = record { keeps = kept }

pub when-IsAside : (b : Bool) (m : Exec (Unit {0})) → IsAside m → IsAside (when b m)
when-IsAside true m h = h
when-IsAside false m h = record { keeps = kept }

pub modify-IsAside : (f : Db → Db) → ((db : Db) → AreKept db (f db)) → IsAside (modify f)
modify-IsAside f h = record { keeps = h }

module _ {A B : Type 0} where
  then-kept :
      (k : A → Exec B) (db : Db) (r : Result A × Db)
      → AreKept db r.1
      → ((a : A) → IsAside (k a))
      → AreKept db (after {A = B} (elim r.0 [ ok a ↦ k a r.1 | err e ↦ raise e r.1 ]))
  then-kept k db (ok a, db') h q = (((q a).keeps db').0 ∙ h.0, ((q a).keeps db').1 ∙ h.1)
  then-kept k db (err e, db') h q = h

  pub bind-IsAside :
      (m : Exec A) (k : A → Exec B) → IsAside m → ((a : A) → IsAside (k a)) → IsAside (m >>= k)
  bind-IsAside m k h q = record { keeps = λ db. then-kept k db (m db) (h.keeps db) q }

  pub seq-IsAside : (m : Exec A) (k : Exec B) → IsAside m → IsAside k → IsAside (m >> k)
  seq-IsAside m k h q = record { keeps = λ db. then-kept (λ a. k) db (m db) (h.keeps db) (λ a. q) }

pub ruleset aside = (
  pure-IsAside, raise-IsAside, gets-IsAside, lift-IsAside, or_raise-IsAside, get_or_404-IsAside,
  atomic-IsAside, catch-IsAside, if-IsAside, raise_if-IsAside, when-IsAside, modify-IsAside,
  bind-IsAside, seq-IsAside,
)
