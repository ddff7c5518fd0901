-- ===== src/Advice/History.antt =====
-- The advices and their snapshots, under the operations of advice/services.py.
use chamneul.Base.{
  ℕ, ◌≤◌, String, ◌≡◌, refl, ap, ◌∙◌, true, false, some, List, [], ◌∷◌, ◌&&◌, nat_eq, ltb, leb,
  arith, inl, inr, if◌then◌else◌, any, find?, count, update, All,
}
use chamneul.Base.Rows.{
  count-append, count-update, any-imp, All-update, any-zero, found_by_key, count-update_found,
  count-update_le, All-find?, All-append, All-update_found, any-count,
}
use chamneul.Models.{Db, Env}
use chamneul.Models.Concerns.{concern_status_Eq}
use chamneul.Models.Advice.{Advice, AdviceHistory, AdviceStatus, advice_status_Eq}
use chamneul.Common.Exec.{ok, after}
use chamneul.Advice.{
  advice_pk, is_pending, AdviceCreate, new_advice, is_live_pair, create_advice, AdvicePatch,
  body_changed, snapshot, is_version, edited, update_advice, delete_advice, Decision, reviewed,
  review_advice,
}
use chamneul.Advice.Effects.{
  create_advice_cases, update_advice_cases, update_advice_granted, is_own, edited_db, with_history,
  delete_advice_cases, review_advice_cases,
}

-- There is one snapshot of each version before the current one, and no other.
abbrev pub IsVersioned : List AdviceHistory → Advice → Type 0
IsVersioned histories a =
    (1 ≤ a.version)
    × ((v : ℕ)
        → count (is_version a.id v) histories ≡ (if leb 1 v && ltb v a.version then 1 else 0))

pub record AreVersioned (advices : List Advice) (histories : List AdviceHistory) : Type 0 where
  pub advice_keys : (k : ℕ) → count (advice_pk k) advices ≤ 1
  pub unique_live : (c a : ℕ) → count (is_live_pair c a) advices ≤ 1
  pub versioned : All (IsVersioned histories) advices

abbrev pub HistoriesHold : Db → Type 0
HistoriesHold db = AreVersioned db.advices db.advice_histories

-- A fresh id: no advice has it, and no snapshot names it.
abbrev pub IsNewAdvice : ℕ → Db → Type 0
IsNewAdvice k db =
    (any (advice_pk k) db.advices ≡ false)
    × (any (λ (h : AdviceHistory). nat_eq h.advice k) db.advice_histories ≡ false)

module _ (env : Env) (k advisor : ℕ) (d : AdviceCreate) (db : Db) where
  fresh_versions :
      (v : ℕ)
      → any (λ (h : AdviceHistory). nat_eq h.advice (env.uuid 0)) db.advice_histories ≡ false
      → count (is_version (env.uuid 0) v) db.advice_histories ≡ 0
  fresh_versions v new = any-zero (is_version (env.uuid 0) v) db.advice_histories (
      any-imp (is_version (env.uuid 0) v) (λ h. nat_eq h.advice (env.uuid 0)) db.advice_histories
        (λ x h. ground arith) new)

  -- #28 keeps the histories, granted or refused, where no advice and no snapshot has the id that it
  -- draws.
  pub create_advice-HistoriesHold :
      IsNewAdvice (env.uuid 0) db
      → HistoriesHold db
      → HistoriesHold (after (create_advice env k advisor d db))
  create_advice-HistoriesHold new t = elim (create_advice_cases env k advisor d db) [
    | inl same ↦ rw same t
    | inr (c, e, g, free, wrote) ↦
        let row = new_advice env c.id advisor d in
        rw wrote (record {
          advice_keys = λ j. ground (
            arith,
            t.advice_keys j,
            new.0,
            any-zero (advice_pk j) db.advices,
            count-append (advice_pk j) db.advices (row ∷ []),
          );
          unique_live = λ x y. ground (
            arith,
            t.unique_live x y,
            any-zero (is_live_pair x y) db.advices,
            count-append (is_live_pair x y) db.advices (row ∷ []),
          );
          versioned =
              All-append (IsVersioned db.advice_histories) db.advices (row ∷ []) t.versioned
                ((omega arith, λ v. fresh_versions v new.1 ∙ ground arith), tt);
        })
  ]

module _ (env : Env) (k actor : ℕ) (p : AdvicePatch) (db : Db) (t : HistoriesHold db) (a : Advice)
    (e : find? (advice_pk k) db.advices ≡ some a) where
  found : find? (advice_pk a.id) db.advices ≡ some a
  found = found_by_key (λ (x : Advice). x.id) k a db.advices e

  own : IsVersioned db.advice_histories a
  own = All-find? (IsVersioned db.advice_histories) (advice_pk k) db.advices a t.versioned e

  unversioned : any (is_version a.id a.version) db.advice_histories ≡ false
  unversioned =
      any-count (is_version a.id a.version) db.advice_histories (own.1 a.version ∙ ground arith)

  others :
      (x : Advice)
      → advice_pk a.id x ≡ false
      → IsVersioned db.advice_histories x
      → IsVersioned (with_history env actor p a db.advice_histories) x
  others x ne h = (
    h.0,
    λ v. ground (
      arith,
      h.1 v,
      count-append (is_version x.id v) db.advice_histories (snapshot env actor a ∷ []),
    ),
  )

  own_after :
      IsVersioned
        (with_history env actor p a db.advice_histories)
        (edited env p (body_changed p a) a)
  own_after = (
    ground (arith, own.0),
    λ v. ground (
      arith,
      own.0,
      own.1 v,
      count-append (is_version a.id v) db.advice_histories (snapshot env actor a ∷ []),
    ),
  )

  edited-AreVersioned : HistoriesHold (edited_db env actor p a db)
  edited-AreVersioned = record {
    advice_keys = λ j. omega (
      arith,
      t.advice_keys j,
      count-update (advice_pk j) (advice_pk a.id) (edited env p (body_changed p a)) db.advices
          (λ x. refl),
    );
    unique_live = λ x y. omega (
      arith,
      t.unique_live x y,
      count-update (is_live_pair x y) (advice_pk a.id) (edited env p (body_changed p a)) db.advices
          (λ x. refl),
    );
    versioned =
        All-update_found (IsVersioned db.advice_histories)
          (IsVersioned (with_history env actor p a db.advice_histories)) (advice_pk a.id)
          (edited env p (body_changed p a)) db.advices a t.versioned (t.advice_keys a.id) found
          others (λ h. own_after);
  }

  -- Where the histories hold, #29 called by the author of an advice that is PENDING or REVIEWING is
  -- never stopped by the unique constraint of the snapshots: it answers the edited advice, and
  -- writes that row and, if the body has changed, one snapshot.
  pub update_advice_total :
      is_own actor is_pending a ≡ true
      → update_advice env k actor p db
        ≡ (ok (edited env p (body_changed p a) a), edited_db env actor p a db)
  update_advice_total g = update_advice_granted env k actor p db a e g unversioned

-- #29 keeps the histories, whoever calls it with whatever fields. HistoriesHold: ids of advices are
-- unique, a concern and an advisor have at most one advice that is not DELETED, and each advice
-- has, of every version from 1 up to the one before its own, exactly one snapshot, and no other.
pub update_advice-HistoriesHold :
    (env : Env) (k actor : ℕ) (p : AdvicePatch) (db : Db)
    → HistoriesHold db
    → HistoriesHold (after (update_advice env k actor p db))
update_advice-HistoriesHold env k actor p db t = elim (update_advice_cases env k actor p db) [
  | inl same ↦ rw same t
  | inr (a, e, g, wrote) ↦ rw wrote (edited-AreVersioned env k actor p db t a e)
]

-- A change of the status, where no row comes back from DELETED.
status-AreVersioned :
    (f : Advice → Advice) (k : ℕ) (advices : List Advice) (histories : List AdviceHistory)
    → ((x : Advice) → (f x).id ≡ x.id)
    → ((x : Advice) → (f x).version ≡ x.version)
    → ((c a : ℕ) → count (is_live_pair c a) (update (advice_pk k) f advices) ≤ 1)
    → AreVersioned advices histories
    → AreVersioned (update (advice_pk k) f advices) histories
status-AreVersioned f k advices histories id version live t = record {
  advice_keys = λ j. ground (
    arith,
    t.advice_keys j,
    count-update (advice_pk j) (advice_pk k) f advices (λ x. ap (λ i. nat_eq i j) (id x)),
  );
  unique_live = live;
  versioned =
      All-update (IsVersioned histories) (IsVersioned histories) (advice_pk k) f advices t.versioned
        (λ x ne h. h) (λ x hit h. rw (id x, version x) h);
}

-- #30 keeps the histories, granted or refused.
pub delete_advice-HistoriesHold :
    (k actor : ℕ) (db : Db) → HistoriesHold db → HistoriesHold (after (delete_advice k actor db))
delete_advice-HistoriesHold k actor db t = elim (delete_advice_cases k actor db) [
  | inl same ↦ rw same t
  | inr (a, e, g, wrote) ↦ rw wrote (
      status-AreVersioned (λ r. record r { status = AdviceStatus.deleted }) a.id db.advices
        db.advice_histories (λ x. refl) (λ x. refl)
        (λ x y. omega (
          arith,
          t.unique_live x y,
          count-update_le (is_live_pair x y) (advice_pk a.id)
              (λ (r : Advice). record r { status = AdviceStatus.deleted }) db.advices
              (λ r h. ground arith),
        ))
        t)
]

module _ (env : Env) (k actor : ℕ) (d : Decision) (reason : String) (expected : ℕ) (db : Db) where
  -- #33 keeps the histories, granted or refused.
  pub review_advice-HistoriesHold :
      HistoriesHold db → HistoriesHold (after (review_advice env k actor d reason expected db))
  review_advice-HistoriesHold t = elim (review_advice_cases env k actor d reason expected db) [
    | inl (x, refused) ↦ rw refused t
    | inr (a, c, e, g, f, wrote) ↦ rw wrote (
        status-AreVersioned (reviewed env actor d reason) a.id db.advices db.advice_histories
          (λ x. refl) (λ x. refl)
          (λ x y. ground (
            arith,
            t.unique_live x y,
            count-update_found (is_live_pair x y) (advice_pk a.id) (reviewed env actor d reason)
                db.advices a (t.advice_keys a.id)
                (found_by_key (λ (x : Advice). x.id) k a db.advices e),
          ))
          t)
  ]
