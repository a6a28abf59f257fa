-- ===== src/Auth/Identity.antt =====
-- Sign in with Apple (src/app/auth/service.py): which user an Apple account and its device stand for.
use ai_text.Prelude.{
  some_inj, ℕ, ◌≡◌, refl, ap, sym, subst, ◌∙◌, inl, inr, String, Option, none, some, List, [], ◌∷◌,
  str_eq, eq_refl, Bool-cases,
}
use ai_text.Auth.{
  AuthDb, AuthDevice, AuthRefreshToken, AppleIdentity, Issuer, IssuedTokens, AuthResult, ok, err,
  find_device, find_subject, insert_token, upsert_device, resolved_device, bind_device,
  find_or_create_identity, issued, issue_pair, new_row, then_issue,
}
use ai_text.Auth.Apple.{
  link_to, linked, link, then_link, resolve_apple_user, then_bind, sign_in_with_apple,
}
use ai_text.Auth.Outcome.{OnOk, if-OnOk, settled-OnOk}
use ai_text.Auth.Reach.{Reach, Reach-IsLater}
use ai_text.Auth.State.{IsLater}

find_device-upsert :
    (r : AuthDevice) (l : List AuthDevice)
    → find_device r.device_id (upsert_device r l) ≡ some r.user_id
unfolding find_device upsert_device
find_device-upsert r [] = rw (eq_refl r.device_id) refl
find_device-upsert r (x ∷ l) = elim (Bool-cases (str_eq x.device_id r.device_id)) [
  | inl hit ↦ rw hit (rw (eq_refl r.device_id) refl)
  | inr miss ↦ rw miss (rw miss (find_device-upsert r l))
]

-- The Apple account and the device both stand for the user of the pair.
abbrev pub Bound : String → IssuedTokens → AuthDb → Type 0
Bound sub pair db =
    (find_subject sub db.identities ≡ some pair.user_id)
    × (find_device pair.device_id db.devices ≡ some pair.user_id)

abbrev pub Binds : String → AuthResult IssuedTokens × AuthDb → Type 0
Binds sub = OnOk (Bound sub)

abbrev Knows : String → AuthResult ℕ × AuthDb → Type 0
Knows sub (ok u, db) = find_subject sub db.identities ≡ some u
Knows sub (err e, db) = Unit

module _ (s : Issuer) (sub : String) where
  issued-Binds :
      (u : ℕ) (d : String) (db : AuthDb) (o : Option (List AuthRefreshToken))
      → find_subject sub db.identities ≡ some u
      → find_device d db.devices ≡ some u
      → Binds sub (issued s u d db o)
  issued-Binds u d db none h k = tt
  issued-Binds u d db (some tokens) h k = (h, k)

  issue_pair-Binds :
      (u : ℕ) (d : String) (db : AuthDb)
      → find_subject sub db.identities ≡ some u
      → find_device d db.devices ≡ some u
      → Binds sub (issue_pair s u d db)
  unfolding issue_pair
  issue_pair-Binds u d db h k =
      if-OnOk (Bound sub) s.configured _ _
        (λ _. issued-Binds u d db (insert_token (new_row s u d db) db.tokens) h k) tt

  bound-Binds :
      (d : String) (r : AuthResult ℕ × AuthDb)
      → Knows sub r
      → Binds sub (then_issue s d (then_bind s d r))
  unfolding bind_device
  bound-Binds d (ok u, db) h =
      issue_pair-Binds u d (bind_device d u db) h
        (find_device-upsert (record { device_id = d; user_id = u }) db.devices)
  bound-Binds d (err e, db) h = tt

  linked-Knows :
      (d : String) (o : Option ℕ) (db : AuthDb)
      → find_subject sub db.identities ≡ o
      → Knows sub (linked s d o db)
  linked-Knows d none db e = tt
  linked-Knows d (some u) db e = e

module _ (s : Issuer) where
  link-Knows :
      (identity : AppleIdentity) (d : String) (u : ℕ) (db : AuthDb)
      → Knows identity.apple_sub (link s identity d (u, db))
  unfolding link
  link-Knows identity d u db = linked-Knows s identity.apple_sub d _ _ refl

  then_link-Knows :
      (identity : AppleIdentity) (d : String) (r : AuthResult ℕ × AuthDb)
      → Knows identity.apple_sub (then_link s identity d r)
  then_link-Knows identity d (ok u, db) =
      link-Knows identity d (link_to s u db).0 (link_to s u db).1
  then_link-Knows identity d (err e, db) = tt

  resolve_apple-Knows :
      (identity : AppleIdentity) (d : String) (known : Option ℕ) (at db : AuthDb)
      → find_subject identity.apple_sub at.identities ≡ known
      → IsLater at db
      → Knows identity.apple_sub (resolve_apple_user s identity d known db)
  unfolding resolve_apple_user
  resolve_apple-Knows identity d (some u) at db seen later =
      later.identities identity.apple_sub u seen
  resolve_apple-Knows identity d none at db seen later =
      then_link-Knows identity d (find_or_create_identity s d (find_device d db.devices) db)

  sign_in-Binds :
      (others : AuthDb → AuthDb) (identity : AppleIdentity) (device_id : Option String)
      (db : AuthDb)
      → ((x : AuthDb) → IsLater x (others x))
      → Binds identity.apple_sub (sign_in_with_apple s others (ok identity) device_id db)
  unfolding sign_in_with_apple
  sign_in-Binds others identity device_id db later =
      let (d, at) = resolved_device s.ids device_id db in
      let known = find_subject identity.apple_sub at.identities in
      if-OnOk (Bound identity.apple_sub) s.configured _ _
        (λ _. settled-OnOk (Bound identity.apple_sub) (others at) _ (
          bound-Binds s identity.apple_sub d (resolve_apple_user s identity d known (others at))
            (resolve_apple-Knows identity d known at (others at) refl (later at))))
        tt

  -- Once an Apple account has signed in, it is the same user at every later sign-in, on whatever
  -- device and whatever the service's methods did in between and do at the same time; and each
  -- time the device that signed in stands for that user, so that payments of the device reach it.
  pub apple_same_user :
      (others others' : AuthDb → AuthDb) (identity identity' : AppleIdentity) (d d' : Option String)
      (a b c b' : AuthDb) (pair pair' : IssuedTokens)
      → ((x : AuthDb) → Reach s x (others x))
      → ((x : AuthDb) → Reach s x (others' x))
      → sign_in_with_apple s others (ok identity) d a ≡ (ok pair, b)
      → Reach s b c
      → identity'.apple_sub ≡ identity.apple_sub
      → sign_in_with_apple s others' (ok identity') d' c ≡ (ok pair', b')
      → (pair'.user_id ≡ pair.user_id)
        × (find_device pair.device_id b.devices ≡ some pair.user_id)
        × (find_device pair'.device_id b'.devices ≡ some pair.user_id)
  apple_same_user others others' identity identity' d d' a b c b' pair pair' meanwhile meanwhile'
        first after same second =
      let (known, device) : Binds identity.apple_sub (ok pair, b) =
        subst (Binds identity.apple_sub) first
          (sign_in-Binds others identity d a (λ x. Reach-IsLater s (meanwhile x))) in
      let (known', device') : Binds identity'.apple_sub (ok pair', b') =
        subst (Binds identity'.apple_sub) second
          (sign_in-Binds others' identity' d' c (λ x. Reach-IsLater s (meanwhile' x))) in
      let later : Reach s b b' =
        subst (λ r. Reach s b r.1) second
          (Reach.signed_in others' (ok identity') d' meanwhile' after) in
      let still = (Reach-IsLater s later).identities identity.apple_sub pair.user_id known in
      let one : pair'.user_id ≡ pair.user_id =
        some_inj (sym known' ∙ ap (λ k. find_subject k b'.identities) same ∙ still) in
      (one, device, device' ∙ ap some one)
