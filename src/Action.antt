-- ===== src/Action.antt =====
-- Code that runs on a database session and may raise (src/app/errors.py). What was written before
-- a raise is still there beside the error: it is the caller that rolls back.
pub mod Ensures
use ai_text.Prelude.{Bool, true, false}
use ai_text.Database.{Db}

pub data AppError : Type 0 where
  validation_failed insufficient_credits conflict : AppError
  already_in_progress too_many_inflight upstream integrity_error : AppError
  unknown_product product_not_in_channel subscription_required : AppError

pub data Result {ℓ} (A : Type ℓ) : Type ℓ where
  ok : A → Result A
  err : AppError → Result A

abbrev pub Action : Type 0 → Type 0
Action A = Db → Result A × Db

-- `raise AppError`, under a test and without one.
abbrev pub raise_if : Bool → AppError → Action (Unit {0})
raise_if true e db = (err e, db)
raise_if false e db = (ok tt, db)

abbrev pub raise : {A : Type 0} → AppError → Action A
raise e db = (err e, db)

-- A query, and a statement that changes rows.
abbrev pub gets : {A : Type 0} → (Db → A) → Action A
gets query db = (ok (query db), db)

abbrev pub modify : (Db → Db) → Action (Unit {0})
modify statement db = (ok tt, statement db)

abbrev pub pure : {A : Type 0} → A → Action A
pure a db = (ok a, db)

infixl 5 ◌>>=◌ ◌>>◌
abbrev pub ◌>>=◌ : {A B : Type 0} → Action A → (A → Action B) → Action B
◌>>=◌ first next db =
    let (result, after) = first db in elim result [ ok a ↦ next a after | err e ↦ (err e, after) ]

abbrev pub ◌>>◌ : {A B : Type 0} → Action A → Action B → Action B
first >> next = first >>= λ _. next

-- The transaction boundary of the callers (`get_session` of src/app/db.py): commit on a return,
-- roll back on a raise.
abbrev pub settled : {A : Type 0} → Db → Result A × Db → Result A × Db
settled before (ok a, db) = (ok a, db)
settled before (err e, db) = (err e, before)

abbrev pub transaction : {A : Type 0} → Action A → Action A
transaction m db = settled db (m db)
