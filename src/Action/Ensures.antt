-- ===== src/Action/Ensures.antt =====
-- What holds after a call that returns, one rule for a sequence of calls and one for the boundary of
-- a transaction. `Ensures` says nothing of a call that
-- raises; `Returns` says that it does not raise.
use ai_text.Prelude.{◌≡◌, refl, ap}
use ai_text.Database.{Db}
use ai_text.Action.{Result, ok, err, Action, ◌>>=◌, transaction, settled}

abbrev pub Ensures : {A : Type 0} → Result A × Db → (A → Db → Type 0) → Type 0
Ensures (ok a, db) Q = Q a db
Ensures (err e, db) Q = Unit

module _ {A : Type 0} where
  pub Ensures-mono :
      (r : Result A × Db) (P Q : A → Db → Type 0)
      → ((a : A) (db : Db) → P a db → Q a db)
      → Ensures r P
      → Ensures r Q
  Ensures-mono (ok a, db) P Q f h = f a db h
  Ensures-mono (err e, db) P Q f h = tt

  pub Ensures-any : (r : Result A × Db) → Ensures r (λ _ _. Unit)
  Ensures-any (ok a, db) = tt
  Ensures-any (err e, db) = tt

  -- With the equation of the result that the postcondition is proved at.
  pub Ensures-eq :
      (r : Result A × Db) (Q : A → Db → Type 0)
      → ((a : A) (db : Db) → r ≡ (ok a, db) → Q a db)
      → Ensures r Q
  Ensures-eq (ok a, db) Q f = f a db refl
  Ensures-eq (err e, db) Q f = tt

  pub transaction-Ensures :
      (P : Db → Type 0) (m : Action A) (db : Db)
      → P db
      → Ensures (m db) (λ _ db'. P db')
      → P (transaction m db).1
  transaction-Ensures P m db p h = at_end (m db) h
    where
      at_end : (r : Result A × Db) → Ensures r (λ _ db'. P db') → P (settled db r).1
      at_end (ok a, db') q = q
      at_end (err e, db') q = p

  pub Ensures-transaction :
      (P : Db → Type 0) (m : Action A) (db : Db)
      → P (transaction m db).1
      → Ensures (m db) (λ _ db'. P db')
  Ensures-transaction P m db h = at_end (m db) h
    where
      at_end : (r : Result A × Db) → P (settled db r).1 → Ensures r (λ _ db'. P db')
      at_end (ok a, db') q = q
      at_end (err e, db') q = tt

module _ {A B : Type 0} where
  pub Ensures-bind :
      (m : Action A) (f : A → Action B) (Q : B → Db → Type 0) (db : Db)
      → Ensures (m db) (λ a db'. Ensures (f a db') Q)
      → Ensures ((m >>= f) db) Q
  Ensures-bind m f Q db h = at_end (m db) h
    where
      at_end :
          (r : Result A × Db)
          → Ensures r (λ a db'. Ensures (f a db') Q)
          → Ensures (elim r.0 as (λ _. Result B × Db) [ ok a ↦ f a r.1 | err e ↦ (err e, r.1) ]) Q
      at_end (ok a, db') q = q
      at_end (err e, db') q = tt

  pub Ensures-seq :
      (m : Action A) (f : A → Action B) (P : A → Db → Type 0) (Q : B → Db → Type 0) (db : Db)
      → Ensures (m db) P
      → ((a : A) (db' : Db) → P a db' → Ensures (f a db') Q)
      → Ensures ((m >>= f) db) Q
  Ensures-seq m f P Q db h k =
      Ensures-bind m f Q db (Ensures-mono (m db) P (λ a db'. Ensures (f a db') Q) k h)

  -- A sequence whose first call is known.
  pub bind-ok :
      (m : Action A) (f : A → Action B) (a : A) (db db' : Db)
      → m db ≡ (ok a, db')
      → (m >>= f) db ≡ f a db'
  bind-ok m f a db db' h =
      ap
        (λ (r : Result A × Db). elim r.0 as (λ _. Result B × Db) [
          | ok x ↦ f x r.1
          | err e ↦ (err e, r.1)
        ])
        h

-- The call does not raise, and this holds after it.
abbrev pub Returns : {A : Type 0} → Result A × Db → (A → Db → Type 0) → Type 0
Returns (ok a, db) Q = Q a db
Returns (err e, db) Q = ⊥

module _ {A : Type 0} where
  pub Returns-mono :
      (r : Result A × Db) (P Q : A → Db → Type 0)
      → ((a : A) (db : Db) → P a db → Q a db)
      → Returns r P
      → Returns r Q
  Returns-mono (ok a, db) P Q f h = f a db h
  Returns-mono (err e, db) P Q f h = h

  pub Returns-and :
      (r : Result A × Db) (P Q : A → Db → Type 0)
      → Returns r P
      → Ensures r Q
      → Returns r (λ a db. P a db × Q a db)
  Returns-and (ok a, db) P Q p q = (p, q)
  Returns-and (err e, db) P Q p q = p

  pub Returns-Ensures : (r : Result A × Db) (Q : A → Db → Type 0) → Returns r Q → Ensures r Q
  Returns-Ensures (ok a, db) Q q = q
  Returns-Ensures (err e, db) Q q = tt

module _ {A B : Type 0} where
  pub Returns-seq :
      (m : Action A) (f : A → Action B) (P : A → Db → Type 0) (Q : B → Db → Type 0) (db : Db)
      → Returns (m db) P
      → ((a : A) (db' : Db) → P a db' → Returns (f a db') Q)
      → Returns ((m >>= f) db) Q
  Returns-seq m f P Q db h k = at_end (m db) h
    where
      at_end :
          (r : Result A × Db)
          → Returns r P
          → Returns (elim r.0 as (λ _. Result B × Db) [ ok a ↦ f a r.1 | err e ↦ (err e, r.1) ]) Q
      at_end (ok a, db') q = k a db' q
      at_end (err e, db') q = absurd q
