-- ===== src/Api/Permissions.antt =====
-- The lists `permission_classes` of the views: `IsAuthenticated` of the framework, and the two classes
-- of common/permissions.py.
use chamneul.Base.{List, [], ◌∷◌}
use chamneul.Common.Requests.{Permission, Gate}
use chamneul.Accounts.Roles.{is_active_advisor, is_admin}

abbrev pub authenticated : Gate → List Permission
authenticated g = (λ u db. g.is_authenticated u) ∷ []

abbrev pub advisors_only : Gate → List Permission
advisors_only g = (λ u db. g.is_authenticated u) ∷ (λ u db. is_active_advisor u) ∷ []

abbrev pub admins_only : List Permission
admins_only = is_admin ∷ []
