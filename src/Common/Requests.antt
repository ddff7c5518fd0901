-- ===== src/Common/Requests.antt =====
-- How a request reaches a handler: the permission classes of a view (common/permissions.py), the
-- check that the framework makes of them, and the response.
use chamneul.Base.{
  ℕ, String, ◌≡◌, Bool, true, false, Option, none, some, List, [], ◌∷◌, ◌&&◌, map, arith,
}
use chamneul.Models.{Db}
use chamneul.Models.Accounts.{User}
use chamneul.Common.Errors.{Error, authentication_failed, permission_denied, value_error}
use chamneul.Common.Exec.{Exec, err, raise}

pub record Reply (A : Type 0) : Type 0 where
  pub status : ℕ
  pub body : A

-- `Response(data)` and `Response(data, status=201)`; 204 has no body.
abbrev pub replies : {A : Type 0} → ℕ → A → Reply A
replies s a = record { status = s; body = a }

-- A permission class: `has_permission` for the user of the request, none if it is anonymous.
abbrev pub Permission : Type 0
Permission = Option User → Db → Bool

abbrev pub all_grant : List Bool → Bool
all_grant [] = true
all_grant (g ∷ gs) = g && all_grant gs

-- `APIView.check_permissions` and `IsAuthenticated` of the framework: a handler is entered exactly
-- if every class grants; else an anonymous request is not authenticated, and a user is denied.
pub record Gate : Type 0 where
  pub is_authenticated : Option User → Bool
  pub check_permissions : Option User → List Bool → Option Error
  pub on_user : (u : User) → is_authenticated (some u) ≡ true
  pub on_anonymous : is_authenticated none ≡ false
  pub on_granted :
      (u : Option User) (gs : List Bool) → all_grant gs ≡ true → check_permissions u gs ≡ none
  pub on_nobody :
      (gs : List Bool)
      → all_grant gs ≡ false
      → (d : String) × (check_permissions none gs ≡ some (authentication_failed d))
  pub on_denied :
      (u : User) (gs : List Bool)
      → all_grant gs ≡ false
      → (d : String) × (check_permissions (some u) gs ≡ some (permission_denied d))

abbrev pub grants : Option User → Db → List Permission → List Bool
grants u db ps = map (λ (p : Permission). p u db) ps

-- `request.user` of a handler. Where no class asks for a user, the attributes of an anonymous one
-- are missing.
abbrev pub run_as : {A : Type 0} → Option User → (User → Exec A) → Exec A
run_as none handler = raise (value_error "AnonymousUser")
run_as (some u) handler = handler u

abbrev pub admitted : {A : Type 0} → Option Error → Exec A → Exec A
admitted none m = m
admitted (some e) m = raise e

-- `APIView.dispatch`: the permission classes, then the handler.
unfoldable pub dispatch :
    {A : Type 0} → Gate → List Permission → Option User → (User → Exec A) → Exec A
dispatch g ps u handler db = admitted (g.check_permissions u (grants u db ps)) (run_as u handler) db

module _ {A : Type 0} (g : Gate) (ps : List Permission) (handler : User → Exec A) (db : Db) where
  -- A request that a class does not grant is refused with 401 or 403, and nothing is written.
  pub dispatch_denied :
      (u : User)
      → all_grant (grants (some u) db ps) ≡ false
      → (d : String) × (dispatch g ps (some u) handler db ≡ (err (permission_denied d), db))
  unfolding dispatch
  dispatch_denied u h =
      let (d, e) = g.on_denied u (grants (some u) db ps) h in (d, ground (arith, e))

  pub dispatch_anonymous :
      all_grant (grants none db ps) ≡ false
      → (d : String) × (dispatch g ps none handler db ≡ (err (authentication_failed d), db))
  unfolding dispatch
  dispatch_anonymous h = let (d, e) = g.on_nobody (grants none db ps) h in (d, ground (arith, e))
