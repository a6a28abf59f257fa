-- ===== src/Auth/Outcome.antt =====
-- Postconditions of the methods of src/app/auth/service.py that return a pair of tokens.
use ai_text.Prelude.{◌≡◌, refl, Bool, true, false, if◌then◌else◌}
use ai_text.Auth.{AuthDb, IssuedTokens, AuthResult, ok, err, settled}

-- What holds of the pair and the database behind a success.
abbrev pub OnOk : (IssuedTokens → AuthDb → Type 0) → AuthResult IssuedTokens × AuthDb → Type 0
OnOk P (ok pair, db) = P pair db
OnOk P (err e, db) = Unit

module _ (P : IssuedTokens → AuthDb → Type 0) where
  pub if-OnOk :
      (b : Bool) (x y : AuthResult IssuedTokens × AuthDb)
      → (b ≡ true → OnOk P x)
      → OnOk P y
      → OnOk P (if b then x else y)
  if-OnOk true x y h k = h refl
  if-OnOk false x y h k = k

  pub settled-OnOk :
      (before : AuthDb) (r : AuthResult IssuedTokens × AuthDb)
      → OnOk P r
      → OnOk P (settled before r)
  settled-OnOk before (ok pair, db) h = h
  settled-OnOk before (err e, db) h = tt

  pub always-OnOk :
      (r : AuthResult IssuedTokens × AuthDb) → ((pair : IssuedTokens) → P pair r.1) → OnOk P r
  always-OnOk (ok pair, db) h = h pair
  always-OnOk (err e, db) h = tt
