-- ===== src/Auth/Reach.antt =====
-- The states that the methods of src/app/auth/service.py lead to, in any order and with any of them
-- between the first query of one and its writes.
use ai_text.Prelude.{ℕ, ◌+◌, refl, String, not, Option, none, some, map, leb}
use ai_text.Auth.{
  AuthDb, AuthRefreshToken, AppleIdentity, Issuer, IssuedTokens, AuthResult, AuthError, ok, err,
  find_device, find_subject, find_token, has_apple, insert_identity, AuthIdentity, is_null,
  resolved_device, bind_device, issue_pair, then_issue, register_or_token, revoke_chain, use_row,
  revoke_row, claimable,
}
use ai_text.Auth.Apple.{
  link_to, linked, link, then_link, resolve_apple_user, then_bind, sign_in_with_apple,
}
use ai_text.Auth.Refresh.{reused, claim, refresh_row, refresh}
use ai_text.Auth.Later.{
  AreKept-refl, map-AreKept, use_row-IsKept, revoke_row-IsKept, insert_identity-kept,
}
use ai_text.Auth.State.{
  IsLater, IsLater-refl, IsLater-trans, aside-IsLater, settled-IsLater, if-IsLater,
  issue_pair-IsLater, find_or_create-IsLater, then_issue-IsLater, resolved-IsLater,
  register-IsLater,
}

-- A method, with what other sessions do in between, or time passing.
pub data Reach (s : Issuer) : AuthDb → AuthDb → Type 0 where
  start : {a : AuthDb} → Reach s a a
  registered :
      {a b : AuthDb} (others : AuthDb → AuthDb) (device_id : Option String)
      → ((x : AuthDb) → Reach s x (others x))
      → Reach s a b
      → Reach s a (register_or_token s others device_id b).1
  signed_in :
      {a b : AuthDb} (others : AuthDb → AuthDb) (verified : AuthResult AppleIdentity)
      (device_id : Option String)
      → ((x : AuthDb) → Reach s x (others x))
      → Reach s a b
      → Reach s a (sign_in_with_apple s others verified device_id b).1
  refreshed :
      {a b : AuthDb} (others : AuthDb → AuthDb) (refresh_token : String)
      → ((x : AuthDb) → Reach s x (others x))
      → Reach s a b
      → Reach s a (refresh s others refresh_token b).1
  tick : {a b : AuthDb} (seconds : ℕ) → Reach s a b → Reach s a (record b { now = b.now + seconds })

module _ (s : Issuer) where
  linked-IsLater :
      (d : String) (o : Option ℕ) (a b : AuthDb) → IsLater a b → IsLater a (linked s d o b).1
  linked-IsLater d none a b h = h
  linked-IsLater d (some u) a b h = IsLater-trans a b _ h (aside-IsLater b _ refl refl)

  link_to-IsLater : (u : ℕ) (db : AuthDb) → IsLater db (link_to s u db).1
  unfolding link_to
  link_to-IsLater u db =
      if-IsLater db (has_apple u db.identities) _ _ (aside-IsLater db _ refl refl) (IsLater-refl db)

  link-IsLater :
      (identity : AppleIdentity) (d : String) (u : ℕ) (db : AuthDb)
      → IsLater db (link s identity d (u, db)).1
  unfolding link
  link-IsLater identity d u db =
      let row : AuthIdentity = record {
        user_id = u;
        subject = identity.apple_sub;
        email = identity.email;
      } in
      let after : AuthDb = record db { identities = insert_identity row db.identities } in
      linked-IsLater d (find_subject identity.apple_sub after.identities) db after (record {
        tokens = AreKept-refl db.tokens;
        identities = λ sub v h. insert_identity-kept sub v row db.identities h;
      })

  then_link-IsLater :
      (identity : AppleIdentity) (d : String) (a : AuthDb) (r : AuthResult ℕ × AuthDb)
      → IsLater a r.1
      → IsLater a (then_link s identity d r).1
  then_link-IsLater identity d a (ok u, db) h =
      let (v, after) = link_to s u db in
      IsLater-trans a after _ (IsLater-trans a db after h (link_to-IsLater u db))
        (link-IsLater identity d v after)
  then_link-IsLater identity d a (err e, db) h = h

  resolve_apple-IsLater :
      (identity : AppleIdentity) (d : String) (known : Option ℕ) (db : AuthDb)
      → IsLater db (resolve_apple_user s identity d known db).1
  unfolding resolve_apple_user
  resolve_apple-IsLater identity d (some u) db = IsLater-refl db
  resolve_apple-IsLater identity d none db =
      then_link-IsLater identity d db _ (find_or_create-IsLater s d (find_device d db.devices) db)

  then_bind-IsLater :
      (d : String) (a : AuthDb) (r : AuthResult ℕ × AuthDb)
      → IsLater a r.1
      → IsLater a (then_bind s d r).1
  unfolding bind_device
  then_bind-IsLater d a (ok u, db) h = IsLater-trans a db _ h (aside-IsLater db _ refl refl)
  then_bind-IsLater d a (err e, db) h = h

  sign_in-IsLater :
      (others : AuthDb → AuthDb) (verified : AuthResult AppleIdentity) (device_id : Option String)
      (db : AuthDb)
      → ((x : AuthDb) → IsLater x (others x))
      → IsLater db (sign_in_with_apple s others verified device_id db).1
  unfolding sign_in_with_apple
  sign_in-IsLater others (err e) device_id db later =
      if-IsLater {A = AuthResult IssuedTokens} db s.configured (err e, db)
        (err AuthError.service_unavailable, db) (IsLater-refl db) (IsLater-refl db)
  sign_in-IsLater others (ok identity) device_id db later =
      let (d, at) = resolved_device s.ids device_id db in
      let known = find_subject identity.apple_sub at.identities in
      let r = resolve_apple_user s identity d known (others at) in
      if-IsLater db s.configured _ _
        (IsLater-trans db (others at) _
          (IsLater-trans db at (others at) (resolved-IsLater s s.ids device_id db) (later at))
          (settled-IsLater (others at) (then_issue s d (then_bind s d r)) (
            then_issue-IsLater s d (others at) (then_bind s d r) (
              then_bind-IsLater d (others at) r
                (resolve_apple-IsLater identity d known (others at))))))
        (IsLater-refl db)

  revoke_chain-IsLater : (u : ℕ) (d : String) (db : AuthDb) → IsLater db (revoke_chain u d db)
  unfolding revoke_chain
  revoke_chain-IsLater u d db = record {
    tokens = map-AreKept (revoke_row u d db.now) (revoke_row-IsKept u d db.now) db.tokens;
    identities = λ sub v h. h;
  }

  pub used_up-IsLater :
      (i : ℕ) (db : AuthDb) → IsLater db (record db { tokens = map (use_row i db.now) db.tokens })
  used_up-IsLater i db = record {
    tokens = map-AreKept (use_row i db.now) (use_row-IsKept i db.now) db.tokens;
    identities = λ sub v h. h;
  }

  reused-IsLater : (row : AuthRefreshToken) (db : AuthDb) → IsLater db (reused s row db).1
  unfolding reused
  reused-IsLater row db = revoke_chain-IsLater row.user_id row.device_id db

  pub claim-IsLater : (row : AuthRefreshToken) (db : AuthDb) → IsLater db (claim s row db).1
  unfolding claim
  claim-IsLater row db =
      let after = record db { tokens = map (use_row row.id db.now) db.tokens } in
      if-IsLater db (claimable row.id db.tokens) _ _
        (settled-IsLater db (issue_pair s row.user_id row.device_id after) (
          IsLater-trans db after _ (used_up-IsLater row.id db)
            (issue_pair-IsLater s row.user_id row.device_id after)))
        (reused-IsLater row db)

  refresh_row-IsLater :
      (others : AuthDb → AuthDb) (o : Option AuthRefreshToken) (db : AuthDb)
      → ((x : AuthDb) → IsLater x (others x))
      → IsLater db (refresh_row s others o db).1
  unfolding refresh_row
  refresh_row-IsLater others none db later = IsLater-refl db
  refresh_row-IsLater others (some row) db later =
      if-IsLater db (not (is_null row.used_at)) _ _
        (IsLater-trans db (others db) _ (later db) (reused-IsLater row (others db)))
        (if-IsLater db (not (is_null row.revoked_at)) _ _ (IsLater-refl db) (
          if-IsLater db (leb row.expires_at db.now) _ _ (IsLater-refl db)
            (IsLater-trans db (others db) _ (later db) (claim-IsLater row (others db)))))

  refresh-IsLater :
      (others : AuthDb → AuthDb) (token : String) (db : AuthDb)
      → ((x : AuthDb) → IsLater x (others x))
      → IsLater db (refresh s others token db).1
  unfolding refresh
  refresh-IsLater others token db later =
      if-IsLater db s.configured _ _
        (refresh_row-IsLater others (find_token (s.hash_refresh token) db.tokens) db later)
        (IsLater-refl db)

  pub Reach-IsLater : {a b : AuthDb} → Reach s a b → IsLater a b
  Reach-IsLater {a} start = IsLater-refl a
  Reach-IsLater {a} (registered {b = b} others device_id between before) =
      IsLater-trans a b _ (Reach-IsLater before)
        (register-IsLater s others device_id b (λ x. Reach-IsLater (between x)))
  Reach-IsLater {a} (signed_in {b = b} others verified device_id between before) =
      IsLater-trans a b _ (Reach-IsLater before)
        (sign_in-IsLater others verified device_id b (λ x. Reach-IsLater (between x)))
  Reach-IsLater {a} (refreshed {b = b} others token between before) =
      IsLater-trans a b _ (Reach-IsLater before)
        (refresh-IsLater others token b (λ x. Reach-IsLater (between x)))
  Reach-IsLater {a} (tick {b = b} seconds before) =
      IsLater-trans a b _ (Reach-IsLater before) (aside-IsLater b _ refl refl)
