-- ===== src/Lifecycle/Histories.antt =====
-- The runs of the operations that write advices: #28, #29, #30 and #33 of advice/services.py.
use chamneul.Base.{ℕ, String}
use chamneul.Base.Runs.{Run, Run-kept}
use chamneul.Models.{Db, Env}
use chamneul.Common.Exec.{after}
use chamneul.Advice.{
  AdviceCreate, AdvicePatch, Decision, create_advice, update_advice, delete_advice, review_advice,
}
use chamneul.Advice.History.{
  HistoriesHold, IsNewAdvice, create_advice-HistoriesHold, update_advice-HistoriesHold,
  delete_advice-HistoriesHold, review_advice-HistoriesHold,
}

-- One call; a refused call is a step too.
pub data AdviceStep : Db → Db → Type 0 where
  written :
      (env : Env) (concern advisor : ℕ) (d : AdviceCreate) {db : Db}
      → IsNewAdvice (env.uuid 0) db
      → AdviceStep db (after (create_advice env concern advisor d db))
  edited :
      (env : Env) (k actor : ℕ) (p : AdvicePatch) {db : Db}
      → AdviceStep db (after (update_advice env k actor p db))
  deleted : (k actor : ℕ) {db : Db} → AdviceStep db (after (delete_advice k actor db))
  reviewed :
      (env : Env) (k actor : ℕ) (d : Decision) (reason : String) (expected : ℕ) {db : Db}
      → AdviceStep db (after (review_advice env k actor d reason expected db))

step-HistoriesHold : {db db' : Db} → AdviceStep db db' → HistoriesHold db → HistoriesHold db'
step-HistoriesHold {db} (AdviceStep.written env concern advisor d new) t =
    create_advice-HistoriesHold env concern advisor d db new t
step-HistoriesHold {db} (AdviceStep.edited env k actor p) t =
    update_advice-HistoriesHold env k actor p db t
step-HistoriesHold {db} (AdviceStep.deleted k actor) t = delete_advice-HistoriesHold k actor db t
step-HistoriesHold {db} (AdviceStep.reviewed env k actor d reason expected) t =
    review_advice-HistoriesHold env k actor d reason expected db t

-- Every run of #28, #29, #30 and #33, refused calls included, where no advice and no snapshot has
-- the new ids of #28, keeps the histories. HistoriesHold: ids of advices are unique, a concern and
-- an advisor have at most one advice that is not DELETED, and each advice has, of every version
-- from 1 up to the one before its own, exactly one snapshot, and no other.
pub Run-HistoriesHold :
    {start db : Db} → Run AdviceStep start db → HistoriesHold start → HistoriesHold db
Run-HistoriesHold r t = Run-kept AdviceStep HistoriesHold (λ a b s t. step-HistoriesHold s t) r t
