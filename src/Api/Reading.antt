-- ===== src/Api/Reading.antt =====
-- Calls that write nothing, and how a handler is put together from them.
use chamneul.Base.{
  String, ◌≡◌, refl, ◌∙◌, Bool, true, false, Option, none, some, List, if◌then◌else◌,
}
use chamneul.Models.{Db}
use chamneul.Models.Accounts.{User}
use chamneul.Common.Errors.{Error}
use chamneul.Common.Exec.{
  Exec, Result, ok, err, pure, raise, gets, or_raise, get_or_404, no_match, ◌>>=◌, after,
}
use chamneul.Common.Requests.{Permission, Gate, grants, run_as, admitted, dispatch}
use chamneul.Common.Pagination.{Paginator, Paging, list_view}
use chamneul.Api.Queries.{with_query}

-- A call that writes nothing, whatever it answers.
pub record IsReading {A : Type 0} (m : Exec A) : Type 0 where
  pub keeps : (db : Db) → after (m db) ≡ db

module _ {A : Type 0} where
  pub pure_reads : (a : A) → IsReading (pure a)
  pure_reads a = record { keeps = λ db. refl }

  pub raise_reads : (e : Error) → IsReading (raise {A = A} e)
  raise_reads e = record { keeps = λ db. refl }

  pub gets_reads : (f : Db → A) → IsReading (gets f)
  gets_reads f = record { keeps = λ db. refl }

  pub or_raise_reads : (o : Option A) (e : Error) → IsReading (or_raise o e)
  or_raise_reads none e = record { keeps = λ db. refl }
  or_raise_reads (some a) e = record { keeps = λ db. refl }

  pub get_or_404_reads : (model : String) (f : Db → Option A) → IsReading (get_or_404 model f)
  get_or_404_reads model f = record {
    keeps = λ db. (or_raise_reads (f db) (no_match model)).keeps db;
  }

  pub list_reads :
      {B : Type 0} (g : Paginator) (q : Paging) (serializer : Db → List A → List B)
      (queryset : Db → List A)
      → IsReading (list_view g q serializer queryset)
  list_reads g q serializer queryset = record { keeps = λ db. refl }

  pub if_reads :
      (b : Bool) (m n : Exec A) → IsReading m → IsReading n → IsReading (if b then m else n)
  if_reads true m n h k = h
  if_reads false m n h k = k

  pub with_query_reads :
      {Q : Type 0} (q : Result Q) (m : Q → Exec A)
      → ((x : Q) → IsReading (m x))
      → IsReading (with_query q m)
  with_query_reads (ok x) m h = h x
  with_query_reads (err e) m h = record { keeps = λ db. refl }

module _ {A B : Type 0} where
  then_reads :
      (k : A → Exec B) (db : Db) (r : Result A × Db)
      → r.1 ≡ db
      → ((a : A) → IsReading (k a))
      → after {A = B} (elim r.0 [ ok a ↦ k a r.1 | err e ↦ raise e r.1 ]) ≡ db
  then_reads k db (ok a, db') h q = (q a).keeps db' ∙ h
  then_reads k db (err e, db') h q = h

  pub bind_reads :
      (m : Exec A) (k : A → Exec B)
      → IsReading m
      → ((a : A) → IsReading (k a))
      → IsReading (m >>= k)
  bind_reads m k h q = record { keeps = λ db. then_reads k db (m db) (h.keeps db) q }

pub ruleset reading = (
  pure_reads, raise_reads, gets_reads, or_raise_reads, get_or_404_reads, list_reads, if_reads,
  with_query_reads, bind_reads,
)

-- The view, after its gate.
module _ {A : Type 0} (g : Gate) (ps : List Permission) (handler : User → Exec A)
    (reads : (user : User) → IsReading (handler user)) where
  admitted_reads : (o : Option Error) (u : Option User) → IsReading (admitted o (run_as u handler))
  admitted_reads none none = raise_reads (Error.value_error "AnonymousUser")
  admitted_reads none (some u) = reads u
  admitted_reads (some e) u = raise_reads e

  pub dispatch_reads : (u : Option User) → IsReading (dispatch g ps u handler)
  unfolding dispatch
  dispatch_reads u = record {
    keeps = λ db. (admitted_reads (g.check_permissions u (grants u db ps)) u).keeps db;
  }
