-- ===== src/Accounts/Saving/Profile.antt =====
-- `update_profile` of accounts/services.py: the columns of the other requests.
use chamneul.Base.{
  ℕ, ◌≡◌, refl, false, Option, none, some, List, [], ◌∷◌, ◌⊎◌, string_Eq, arith, any, find?, update,
  Option-cases, Bool-cases, inl, inr,
}
use chamneul.Models.{Db, Env}
use chamneul.Models.Accounts.{User}
use chamneul.Common.Exec.{after}
use chamneul.Accounts.Roles.{user_pk}
use chamneul.Accounts.Saving.{
  Guarded, guarded, ProfilePatch, apply_profile, takes_nickname, update_profile,
}

abbrev pub guarded_of : Option User → Option Guarded
guarded_of none = none
guarded_of (some u) = some (guarded u)

abbrev profile_db : Env → ProfilePatch → User → Db → Db
profile_db env p u db = record db {
  users = update (user_pk u.id) (apply_profile env.now p) db.users;
}

update_profile_cases :
    (env : Env) (k : ℕ) (p : ProfilePatch) (db : Db)
    → (after (update_profile env k p db) ≡ db)
      ⊎ ((u : User) × (find? (user_pk k) db.users ≡ some u)
          × (any (takes_nickname u.id (apply_profile env.now p u).nickname) db.users ≡ false)
          × (after (update_profile env k p db) ≡ profile_db env p u db))
unfolding update_profile
update_profile_cases env k p db = elim (Option-cases (find? (user_pk k) db.users)) [
  | inl missing ↦ inl (ground arith)
  | inr (u, e) ↦
      elim (Bool-cases (any (takes_nickname u.id (apply_profile env.now p u).nickname) db.users)) [
        | inl taken ↦ inl (ground arith)
        | inr free ↦ inr (u, e, free, ground arith)
      ]
]

guarded_row :
    (now j i : ℕ) (p : ProfilePatch) (users : List User)
    → guarded_of (find? (user_pk j) (update (user_pk i) (apply_profile now p) users))
      ≡ guarded_of (find? (user_pk j) users)
guarded_row now j i p [] = refl
guarded_row now j i p (u ∷ users) = elim (Bool-cases (user_pk i u)) [
  | inl hit ↦ elim (Bool-cases (user_pk j u)) [
    | inl found ↦ rw (hit, found) refl
    | inr other ↦ rw (hit, other) (guarded_row now j i p users)
  ]
  | inr miss ↦ elim (Bool-cases (user_pk j u)) [
    | inl found ↦ rw (miss, found) refl
    | inr other ↦ rw (miss, other) (guarded_row now j i p users)
  ]
]

-- #8 changes no guarded column (password, last_login, email, is_active, is_staff, is_superuser,
-- active_role) of the row of any id, whoever calls it with whatever fields.
pub update_profile-guarded :
    (env : Env) (k j : ℕ) (p : ProfilePatch) (db : Db)
    → guarded_of (find? (user_pk j) (after (update_profile env k p db)).users)
      ≡ guarded_of (find? (user_pk j) db.users)
update_profile-guarded env k j p db = elim (update_profile_cases env k p db) [
  | inl same ↦ rw same refl
  | inr (u, e, free, wrote) ↦ rw wrote (guarded_row env.now j u.id p db.users)
]
