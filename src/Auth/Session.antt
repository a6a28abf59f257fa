-- ===== src/Auth/Session.antt =====
-- Sessions of src/app/auth/service.py that go on: the account that an Apple sign-in keeps, and the
-- refresh token that is good for one more pair.
use ai_text.Prelude.{
  some_inj, ℕ, ◌≡◌, refl, ap, subst, ◌∙◌, inl, inr, String, false, Option, none, some, List, [],
  ◌∷◌, ◌++◌, arith, str_eq, eq_refl, Bool-cases,
}
use ai_text.Auth.{
  AuthDb, AuthIdentity, AuthRefreshToken, AppleIdentity, Issuer, IssuedTokens, AuthResult, ok, err,
  find_device, find_subject, has_apple, insert_identity, insert_token, resolved_device, bind_device,
  find_or_create_identity, issued, issue_pair, new_row, then_issue,
}
use ai_text.Auth.Apple.{
  link_to, linked, link, then_link, resolve_apple_user, then_bind, sign_in_with_apple,
}
use ai_text.Auth.Outcome.{OnOk, if-OnOk, settled-OnOk}

find_subject-last :
    (x : AuthIdentity) (l : List AuthIdentity)
    → find_subject x.subject l ≡ none
    → find_subject x.subject (l ++ x ∷ []) ≡ some x.user_id
unfolding find_subject
find_subject-last x [] e = rw (eq_refl x.subject) refl
find_subject-last x (y ∷ l) e = elim (Bool-cases (str_eq y.subject x.subject)) [
  | inl hit ↦ absurd (grind (arith, hit, e))
  | inr miss ↦ rw miss (find_subject-last x l (rw miss at e))
]

insert_identity-new :
    (x : AuthIdentity) (l : List AuthIdentity)
    → find_subject x.subject l ≡ none
    → find_subject x.subject (insert_identity x l) ≡ some x.user_id
unfolding insert_identity
insert_identity-new x l e = rw (e, insert_identity) (find_subject-last x l e)

-- A success is for the user and the device.
abbrev pub IsFor : ℕ → String → IssuedTokens → AuthDb → Type 0
IsFor u d pair db = (pair.user_id ≡ u) × (pair.device_id ≡ d)

module _ (s : Issuer) where
  issued-IsFor :
      (u : ℕ) (d : String) (db : AuthDb) (o : Option (List AuthRefreshToken))
      → OnOk (IsFor u d) (issued s u d db o)
  issued-IsFor u d db none = tt
  issued-IsFor u d db (some tokens) = (refl, refl)

  issue_pair-IsFor : (u : ℕ) (d : String) (db : AuthDb) → OnOk (IsFor u d) (issue_pair s u d db)
  unfolding issue_pair
  issue_pair-IsFor u d db =
      if-OnOk (IsFor u d) s.configured _ _
        (λ _. issued-IsFor u d db (insert_token (new_row s u d db) db.tokens)) tt

  bound-IsFor :
      (u : ℕ) (d : String) (r : AuthResult ℕ × AuthDb)
      → r.0 ≡ ok u
      → OnOk (IsFor u d) (then_issue s d (then_bind s d r))
  bound-IsFor u d (ok v, db) e =
      let same : v ≡ u = cc in
      subst (λ w. OnOk (IsFor w d) (then_issue s d (then_bind s d (ok v, db)))) same
        (issue_pair-IsFor v d (bind_device d v db))
  bound-IsFor u d (err x, db) e = absurd (cc)

  linked-ok :
      (d : String) (u : ℕ) (o : Option ℕ) (db : AuthDb) → o ≡ some u → (linked s d o db).0 ≡ ok u
  linked-ok d u none db e = absurd (cc)
  linked-ok d u (some v) db e = ap ok (some_inj e)

  link-new :
      (identity : AppleIdentity) (d : String) (u : ℕ) (db : AuthDb)
      → find_subject identity.apple_sub db.identities ≡ none
      → (link s identity d (u, db)).0 ≡ ok u
  unfolding link
  link-new identity d u db new =
      let row : AuthIdentity = record {
        user_id = u;
        subject = identity.apple_sub;
        email = identity.email;
      } in
      linked-ok d u (find_subject identity.apple_sub (insert_identity row db.identities))
        (record db { identities = insert_identity row db.identities })
        (insert_identity-new row db.identities new)

  link_to-anonymous :
      (u : ℕ) (db : AuthDb) → has_apple u db.identities ≡ false → link_to s u db ≡ (u, db)
  unfolding link_to
  link_to-anonymous u db anonymous = rw anonymous refl

  resolve_apple-device :
      (identity : AppleIdentity) (d : String) (u : ℕ) (db : AuthDb)
      → find_subject identity.apple_sub db.identities ≡ none
      → find_device d db.devices ≡ some u
      → has_apple u db.identities ≡ false
      → (resolve_apple_user s identity d none db).0 ≡ ok u
  unfolding resolve_apple_user find_or_create_identity
  resolve_apple-device identity d u db new at_device anonymous =
      ap (λ o. (then_link s identity d (find_or_create_identity s d o db)).0) at_device
      ∙ ap (λ p. (link s identity d p).0) (link_to-anonymous u db anonymous)
      ∙ link-new identity d u db new

  -- If nobody has signed in with the Apple account, and the device's user has no Apple account yet,
  -- then a sign-in on the device that succeeds is for that user: an anonymous account is kept.
  pub sign_in_keeps_account :
      (others : AuthDb → AuthDb) (identity : AppleIdentity) (d : String) (u : ℕ) (a b : AuthDb)
      (pair : IssuedTokens)
      → str_eq d "" ≡ false
      → find_subject identity.apple_sub a.identities ≡ none
      → find_subject identity.apple_sub (others a).identities ≡ none
      → find_device d (others a).devices ≡ some u
      → has_apple u (others a).identities ≡ false
      → sign_in_with_apple s others (ok identity) (some d) a ≡ (ok pair, b)
      → (pair.user_id ≡ u) × (pair.device_id ≡ d)
  unfolding sign_in_with_apple resolved_device
  sign_in_keeps_account others identity d u a b pair filled new new' at_device anonymous done =
      subst (OnOk (IsFor u d)) done (
        rw filled (
          rw new (
            if-OnOk (IsFor u d) s.configured _ _
              (λ _. settled-OnOk (IsFor u d) (others a) _ (
                bound-IsFor u d (resolve_apple_user s identity d none (others a))
                  (resolve_apple-device identity d u (others a) new' at_device anonymous)))
              tt)))
