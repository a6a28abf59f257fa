-- ===== src/Auth/State.antt =====
-- One state of the tables of src/app/auth/service.py after another, and that registering leads from one
-- to a later one.
use ai_text.Prelude.{
  ℕ, ◌≡◌, refl, ap, sym, subst, ◌∙◌, String, Bool, true, false, Option, none, some, List, str_eq,
  if◌then◌else◌,
}
use ai_text.Database.{Uuids}
use ai_text.Auth.{
  AuthDb, AuthRefreshToken, Issuer, AuthResult, ok, err, find_device, find_subject, insert_token,
  settled, resolved_device, issue_pair, issued, new_row, provisioned, winner,
  find_or_create_identity, then_issue, register_or_token,
}
use ai_text.Auth.Later.{AreKept, AreKept-refl, AreKept-trans, insert_token-AreKept}

pub record IsLater (a b : AuthDb) : Type 0 where
  pub tokens : AreKept a.tokens b.tokens
  pub identities :
      (sub : String) (u : ℕ)
      → find_subject sub a.identities ≡ some u
      → find_subject sub b.identities ≡ some u

pub IsLater-refl : (a : AuthDb) → IsLater a a
IsLater-refl a = record { tokens = AreKept-refl a.tokens; identities = λ sub u h. h }

pub IsLater-trans : (a b c : AuthDb) → IsLater a b → IsLater b c → IsLater a c
IsLater-trans a b c f g = record {
  tokens = AreKept-trans a.tokens b.tokens c.tokens f.tokens g.tokens;
  identities = λ sub u h. g.identities sub u (f.identities sub u h);
}

-- A change that leaves the tokens and the identities alone.
pub aside-IsLater : (a b : AuthDb) → a.tokens ≡ b.tokens → a.identities ≡ b.identities → IsLater a b
aside-IsLater a b e i = record {
  tokens = subst (AreKept a.tokens) e (AreKept-refl a.tokens);
  identities = λ sub u h. ap (find_subject sub) (sym i) ∙ h;
}

pub settled-IsLater :
    {A : Type 0} (db : AuthDb) (r : AuthResult A × AuthDb)
    → IsLater db r.1
    → IsLater db (settled db r).1
settled-IsLater db (ok a, after) h = h
settled-IsLater db (err e, after) h = IsLater-refl db

pub if-IsLater :
    {A : Type 0} (a : AuthDb) (b : Bool) (x y : A × AuthDb)
    → IsLater a x.1
    → IsLater a y.1
    → IsLater a (if b then x else y).1
if-IsLater a true x y h k = h
if-IsLater a false x y h k = k

module _ (s : Issuer) where
  pub issued-IsLater :
      (u : ℕ) (d : String) (db : AuthDb) (o : Option (List AuthRefreshToken))
      → insert_token (new_row s u d db) db.tokens ≡ o
      → IsLater db (issued s u d db o).1
  issued-IsLater u d db none e = IsLater-refl db
  issued-IsLater u d db (some tokens) e = record {
    tokens = insert_token-AreKept (new_row s u d db) db.tokens tokens e;
    identities = λ sub v h. h;
  }

  pub issue_pair-IsLater : (u : ℕ) (d : String) (db : AuthDb) → IsLater db (issue_pair s u d db).1
  unfolding issue_pair
  issue_pair-IsLater u d db =
      if-IsLater db s.configured _ _
        (issued-IsLater u d db (insert_token (new_row s u d db) db.tokens) refl) (IsLater-refl db)

  winner-IsLater : (o : Option ℕ) (a b : AuthDb) → IsLater a b → IsLater a (winner s o b).1
  winner-IsLater none a b h = h
  winner-IsLater (some u) a b h = h

  pub find_or_create-IsLater :
      (d : String) (seen : Option ℕ) (db : AuthDb)
      → IsLater db (find_or_create_identity s d seen db).1
  unfolding find_or_create_identity provisioned
  find_or_create-IsLater d (some u) db = IsLater-refl db
  find_or_create-IsLater d none db =
      winner-IsLater (find_device d (provisioned s d db).devices) db (provisioned s d db)
        (aside-IsLater db (provisioned s d db) refl refl)

  pub then_issue-IsLater :
      (d : String) (a : AuthDb) (r : AuthResult ℕ × AuthDb)
      → IsLater a r.1
      → IsLater a (then_issue s d r).1
  then_issue-IsLater d a (ok u, db) h = IsLater-trans a db _ h (issue_pair-IsLater u d db)
  then_issue-IsLater d a (err e, db) h = h

  pub resolved-IsLater :
      (ids : Uuids) (device_id : Option String) (db : AuthDb)
      → IsLater db (resolved_device ids device_id db).1
  unfolding resolved_device
  resolved-IsLater ids none db = aside-IsLater db _ refl refl
  resolved-IsLater ids (some d) db =
      if-IsLater db (str_eq d "") _ _ (aside-IsLater db _ refl refl) (IsLater-refl db)

  pub register-IsLater :
      (others : AuthDb → AuthDb) (device_id : Option String) (db : AuthDb)
      → ((x : AuthDb) → IsLater x (others x))
      → IsLater db (register_or_token s others device_id db).1
  unfolding register_or_token
  register-IsLater others device_id db later =
      let (d, at) = resolved_device s.ids device_id db in
      let r = find_or_create_identity s d (find_device d at.devices) (others at) in
      if-IsLater db s.configured _ _
        (IsLater-trans db (others at) _
          (IsLater-trans db at (others at) (resolved-IsLater s.ids device_id db) (later at))
          (settled-IsLater (others at) (then_issue s d r) (
            then_issue-IsLater d (others at) r
              (find_or_create-IsLater d (find_device d at.devices) (others at)))))
        (IsLater-refl db)
