-- ===== src/Concerns/Bulk.antt =====
-- The bulk actions of concerns/admin.py. The rows that are selected are a queryset, which the database
-- evaluates anew each time it is used: a test of rows.
use chamneul.Base.{
  ℕ, ◌+◌, ◌-◌, ◌<◌, ◌≡◌, refl, Bool, true, none, some, List, [], ◌∷◌, ◌&&◌, not, ◌==◌, arith,
  if◌then◌else◌, leb, count, update, Bool-cases, inl, inr,
}
use chamneul.Models.{Db, Env}
use chamneul.Models.Concerns.{Concern, ConcernStatus, concern_status_Eq}
use chamneul.Common.Exec.{Exec, ok, pure, gets, modify, answer, ◌>>=◌, ◌>>◌}
use chamneul.Concerns.{is_alive}

-- `m - n` of two counts: an integer.
pub data ℤ : Type 0 where
  pos : ℕ → ℤ
  -- minus one minus the number
  negsuc : ℕ → ℤ

unfoldable pub difference : ℕ → ℕ → ℤ
difference m n = if leb n m then ℤ.pos (m - n) else ℤ.negsuc (n - m - 1)

-- The numbers of the message of an action.
pub record Closing : Type 0 where
  pub updated : ℕ
  pub skipped : ℤ

abbrev pub is_closable : Concern → Bool
is_closable c = c.status == ConcernStatus.answered && is_alive c

abbrev pub close : Env → Concern → Concern
close env c = record c { status = ConcernStatus.closed; updated_at = env.now }

unfoldable pub close_selected : Env → (Concern → Bool) → Exec Closing
unfolding difference
close_selected env queryset = do
  updated ← gets (λ db. count (λ c. queryset c && is_closable c) db.concerns)
  modify (λ db. record db {
    concerns = update (λ c. queryset c && is_closable c) (close env) db.concerns;
  })
  left ← gets (λ db. count queryset db.concerns)
  pure (record { updated = updated; skipped = difference left updated })

unfoldable pub soft_delete_selected : Env → (Concern → Bool) → Exec ℕ
soft_delete_selected env queryset = do
  updated ← gets (λ db. count (λ c. queryset c && is_alive c) db.concerns)
  modify (λ db. record db {
    concerns =
        update (λ c. queryset c && is_alive c) (λ c. record c { deleted_at = some env.now })
          db.concerns;
  })
  pure updated

unfoldable pub restore_selected : (Concern → Bool) → Exec ℕ
restore_selected queryset = do
  updated ← gets (λ db. count (λ c. queryset c && not (is_alive c)) db.concerns)
  modify (λ db. record db {
    concerns =
        update (λ c. queryset c && not (is_alive c)) (λ c. record c { deleted_at = none })
          db.concerns;
  })
  pure updated

module _ (env : Env) (queryset : Concern → Bool) where
  -- A selection that does not depend on what the action writes counts what it skipped.
  close_count :
      (xs : List Concern)
      → ((c : Concern) → queryset (close env c) ≡ queryset c)
      → count queryset (update (λ c. queryset c && is_closable c) (close env) xs)
        ≡ count (λ c. queryset c && is_closable c) xs
          + count (λ c. queryset c && not (is_closable c)) xs
  close_count [] h = omega arith
  close_count (x ∷ xs) h = ground (arith, close_count xs h, h x)

  -- A selection of answered concerns that are not deleted has no row left.
  close_none :
      (xs : List Concern)
      → ((c : Concern) → queryset c ≡ true → is_closable c ≡ true)
      → count queryset (update (λ c. queryset c && is_closable c) (close env) xs) ≡ 0
  close_none [] h = refl
  close_none (x ∷ xs) h = elim (Bool-cases (queryset x)) [
    | inl picked ↦ elim (Bool-cases (queryset (close env x))) [
      | inl still ↦ absurd (ground (arith, h x, h (close env x)))
      | inr lost ↦ ground (arith, close_none xs h, h x)
    ]
    | inr other ↦ ground (arith, close_none xs h)
  ]

  -- Where the selection does not depend on what the action writes, the count is right.
  close_selected_counts :
      (db : Db)
      → ((c : Concern) → queryset (close env c) ≡ queryset c)
      → answer (close_selected env queryset db)
        ≡ ok (record {
          updated = count (λ c. queryset c && is_closable c) db.concerns;
          skipped = ℤ.pos (count (λ c. queryset c && not (is_closable c)) db.concerns);
        })
  unfolding close_selected
  close_selected_counts db h = ground (arith, close_count db.concerns h)

  -- Where every selected concern is ANSWERED and not deleted, as on the list of the admin page
  -- filtered so, and at least one is, the bulk action that closes concerns reports a negative
  -- number of skipped ones: minus the number of those that it has closed.
  pub close_selected_negative :
      (db : Db)
      → ((c : Concern) → queryset c ≡ true → is_closable c ≡ true)
      → 0 < count (λ c. queryset c && is_closable c) db.concerns
      → answer (close_selected env queryset db)
        ≡ ok (record {
          updated = count (λ c. queryset c && is_closable c) db.concerns;
          skipped = ℤ.negsuc (count (λ c. queryset c && is_closable c) db.concerns - 1);
        })
  unfolding close_selected
  close_selected_negative db h some_row = ground (arith, close_none db.concerns h)
