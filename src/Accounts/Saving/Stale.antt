-- ===== src/Accounts/Saving/Stale.antt =====
-- `User.save` of accounts/models.py on an instance that was loaded earlier.
use chamneul.Base.{
  ℕ, ◌≡◌, refl, sym, ap, ◌∙◌, Bool, true, false, Option, none, some, ◌==◌, nat_eq_refl, Eq,
  string_Eq, bool_Eq, nat_Eq,
}
use chamneul.Models.{Env}
use chamneul.Models.Accounts.{User, active_role_Eq}
use chamneul.Accounts.Saving.{Guarded, guarded, same_instant, written, save}

written_same {ℓ} : {A : Type ℓ} (b : Bool) (row new : A) → b ≡ true → written b row new ≡ row
written_same true row new h = refl
written_same false row new h = cc

same_instant_refl : (o : Option ℕ) → same_instant o o ≡ true
same_instant_refl none = refl
same_instant_refl (some a) = nat_eq_refl a

same_refl : {A : Type 0} ⦃q : Eq A⦄ (a : A) → (a == a) ≡ true
same_refl ⦃q⦄ a = (q.same_iff a a).1 refl

-- A full save of an instance of User whose guarded columns are those it was loaded with leaves the
-- guarded columns of the row as they are now, whatever has been written to them since the load,
-- while the nickname becomes that of the instance.
pub save_guards :
    (env : Env) (loaded row u : User)
    → guarded u ≡ guarded loaded
    → (guarded (save env (record { user = u; baseline = guarded loaded }) row) ≡ guarded row)
      × ((save env (record { user = u; baseline = guarded loaded }) row).nickname ≡ u.nickname)
unfolding save
save_guards env loaded row u same = (
  λ i. record {
    password =
        written_same _ row.password u.password
          (ap (λ (g : Guarded). u.password == g.password) (sym same) ∙ same_refl u.password) i;
    last_login =
        written_same _ row.last_login u.last_login
          (ap (λ (g : Guarded). same_instant u.last_login g.last_login) (sym same)
            ∙ same_instant_refl u.last_login)
          i;
    email =
        written_same _ row.email u.email
          (ap (λ (g : Guarded). u.email == g.email) (sym same) ∙ same_refl u.email) i;
    is_active =
        written_same _ row.is_active u.is_active
          (ap (λ (g : Guarded). u.is_active == g.is_active) (sym same) ∙ same_refl u.is_active) i;
    is_staff =
        written_same _ row.is_staff u.is_staff
          (ap (λ (g : Guarded). u.is_staff == g.is_staff) (sym same) ∙ same_refl u.is_staff) i;
    is_superuser =
        written_same _ row.is_superuser u.is_superuser
          (ap (λ (g : Guarded). u.is_superuser == g.is_superuser) (sym same)
            ∙ same_refl u.is_superuser)
          i;
    active_role =
        written_same _ row.active_role u.active_role
          (ap (λ (g : Guarded). u.active_role == g.active_role) (sym same)
            ∙ same_refl u.active_role)
          i;
  },
  refl,
)
