-- ===== src/Base/Runs.antt =====
-- Runs of the steps of a relation, in any order and number.
module _ {ℓ κ} {A : Type ℓ} (Step : A → A → Type κ) where
  pub data Run (start : A) : A → Type (ℓ ⊔ κ) where
    here : Run start start
    later : {a b : A} → Run start a → Step a b → Run start b

  -- What every step keeps, a run keeps.
  pub Run-kept {μ} :
      (P : A → Type μ)
      → ((a b : A) → Step a b → P a → P b)
      → {start end : A} → Run start end
      → P start
      → P end
  Run-kept P kept Run.here p = p
  Run-kept P kept (Run.later r s) p = kept _ _ s (Run-kept P kept r p)
