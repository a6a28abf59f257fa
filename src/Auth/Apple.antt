-- ===== src/Auth/Apple.antt =====
-- `sign_in_with_apple` of src/app/auth/service.py, behind the verification of the identity token.
use ai_text.Prelude.{ℕ, suc, String, Option, none, some, [], ◌∷◌, ◌++◌, if◌then◌else◌}
use ai_text.Auth.{
  AuthDb, AppleIdentity, Issuer, IssuedTokens, AuthResult, ok, err, service_unavailable,
  find_subject, find_device, has_apple, insert_user, insert_identity, audit_event, settled,
  resolved_device, bind_device, find_or_create_identity, then_issue,
}

module _ (s : Issuer) where
  -- The user that the identity is linked to: the device's, if it has no Apple identity, or a new one.
  unfoldable pub link_to : ℕ → AuthDb → ℕ × AuthDb
  unfolding has_apple insert_user
  link_to device_user db =
      if has_apple device_user db.identities
      then (
        s.ids.gen db.drawn,
        record db { users = insert_user (s.ids.gen db.drawn) db.users; drawn = suc db.drawn },
      )
      else (device_user, db)

  abbrev pub linked : String → Option ℕ → AuthDb → AuthResult ℕ × AuthDb
  linked d none db = (err service_unavailable, db)
  linked d (some u) db =
      (ok u, record db { audit = db.audit ++ audit_event u "apple_identity_linked" d ∷ [] })

  -- The INSERT of the identity, and the query for the one that is there then.
  unfoldable pub link : AppleIdentity → String → ℕ × AuthDb → AuthResult ℕ × AuthDb
  unfolding insert_identity find_subject
  link identity d (u, db) =
      let identities =
        insert_identity
          (record { user_id = u; subject = identity.apple_sub; email = identity.email })
          db.identities in
      linked d (find_subject identity.apple_sub identities) (record db { identities = identities })

  abbrev pub then_link : AppleIdentity → String → AuthResult ℕ × AuthDb → AuthResult ℕ × AuthDb
  then_link identity d (ok u, db) = link identity d (link_to u db)
  then_link identity d (err e, db) = (err e, db)

  -- `_resolve_apple_user`, behind its first query, which found `known`.
  unfoldable pub resolve_apple_user :
      AppleIdentity → String → Option ℕ → AuthDb → AuthResult ℕ × AuthDb
  unfolding link link_to find_or_create_identity find_device
  resolve_apple_user identity d (some u) db = (ok u, db)
  resolve_apple_user identity d none db =
      then_link identity d (find_or_create_identity s d (find_device d db.devices) db)

  abbrev pub then_bind : String → AuthResult ℕ × AuthDb → AuthResult ℕ × AuthDb
  then_bind d (ok u, db) = (ok u, bind_device d u db)
  then_bind d (err e, db) = (err e, db)

  -- `verified` is what the verifier of the identity token returns or raises.
  unfoldable pub sign_in_with_apple :
      (AuthDb → AuthDb)
      → AuthResult AppleIdentity
      → Option String
      → AuthDb
      → AuthResult IssuedTokens × AuthDb
  unfolding resolved_device find_subject resolve_apple_user bind_device
  sign_in_with_apple others (err e) device_id db =
      if s.configured then (err e, db) else (err service_unavailable, db)
  sign_in_with_apple others (ok identity) device_id db =
      if s.configured
      then (let (d, at) = resolved_device s.ids device_id db in
          let known = find_subject identity.apple_sub at.identities in
          settled (others at)
            (then_issue s d (then_bind d (resolve_apple_user identity d known (others at)))))
      else (err service_unavailable, db)
