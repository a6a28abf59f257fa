-- ===== src/Auth.antt =====
-- src/app/auth/service.py: device identities, Sign in with Apple, and refresh tokens, over the tables
-- `auth_devices`, `auth_identities` and `auth_refresh_tokens` of src/app/models/tables.py. Each
-- method takes as `others` what other sessions commit between its first query and its writes, and
-- returns its result and what is committed then. Columns that only record times are not modelled.
pub mod Apple
pub mod Refresh
pub mod Later
pub mod State
pub mod Reach
pub mod Outcome
pub mod Rotation
pub mod Once
pub mod Identity
pub mod Session
pub mod Pair
pub mod Resolve
use ai_text.Prelude.{
  ℕ, suc, ◌+◌, ◌≤◌, String, Bool, true, false, not, ◌&&◌, ◌||◌, Option, none, some, List, [], ◌∷◌,
  ◌++◌, map, leb, ◌==◌, str_eq, if◌then◌else◌,
}
use ai_text.Database.{Uuids, AuditLog, Json}

pub record AuthDevice : Type 0 where
  pub device_id : String
  pub user_id : ℕ

-- A row of `auth_identities` of the one provider that is written, 'apple'.
pub record AuthIdentity : Type 0 where
  pub user_id : ℕ
  pub subject : String
  pub email : Option String

pub record AuthRefreshToken : Type 0 where
  pub id : ℕ
  pub user_id : ℕ
  pub device_id : String
  pub token_hash : String
  pub expires_at : ℕ
  pub used_at : Option ℕ
  pub revoked_at : Option ℕ

-- The tables, the numbers of identifiers and of secrets drawn so far, and the clock in seconds.
pub record AuthDb : Type 0 where
  pub users : List ℕ
  pub devices : List AuthDevice
  pub identities : List AuthIdentity
  pub tokens : List AuthRefreshToken
  pub audit : List AuditLog
  pub drawn : ℕ
  pub secrets : ℕ
  pub now : ℕ

-- The issuer and the settings, `secrets.token_urlsafe` as a sequence, and `_hash_refresh`. An access
-- token depends on the user, the device and the time.
pub record Issuer : Type 0 where
  pub configured : Bool
  pub access_token : ℕ → String → ℕ → String
  pub access_ttl_seconds : ℕ
  pub refresh_ttl : ℕ
  pub token_urlsafe : ℕ → String
  pub hash_refresh : String → String
  pub ids : Uuids

pub data AuthError : Type 0 where
  service_unavailable unauthorized integrity_error : AuthError

pub data AuthResult (A : Type 0) : Type 0 where
  ok : A → AuthResult A
  err : AuthError → AuthResult A

pub record IssuedTokens : Type 0 where
  pub user_id : ℕ
  pub device_id : String
  pub access_token : String
  pub expires_in : ℕ
  pub refresh_token : String
  pub refresh_expires_in : ℕ

-- `VerifiedAppleIdentity`, what the verifier of the identity token returns.
pub record AppleIdentity : Type 0 where
  pub apple_sub : String
  pub email : Option String

abbrev pub is_null : Option ℕ → Bool
is_null none = true
is_null (some t) = false

unfoldable pub find_device : String → List AuthDevice → Option ℕ
find_device d [] = none
find_device d (r ∷ l) = if str_eq r.device_id d then some r.user_id else find_device d l

unfoldable pub find_subject : String → List AuthIdentity → Option ℕ
find_subject s [] = none
find_subject s (r ∷ l) = if str_eq r.subject s then some r.user_id else find_subject s l

-- `SELECT 1 FROM auth_identities WHERE user_id = …`
unfoldable pub has_apple : ℕ → List AuthIdentity → Bool
has_apple u [] = false
has_apple u (r ∷ l) = if r.user_id == u then true else has_apple u l

unfoldable pub has_user : ℕ → List ℕ → Bool
has_user u [] = false
has_user u (v ∷ l) = if v == u then true else has_user u l

unfoldable pub find_token : String → List AuthRefreshToken → Option AuthRefreshToken
find_token h [] = none
find_token h (t ∷ l) = if str_eq t.token_hash h then some t else find_token h l

unfoldable pub has_token_id : ℕ → List AuthRefreshToken → Bool
has_token_id i [] = false
has_token_id i (t ∷ l) = if t.id == i then true else has_token_id i l

-- `ON CONFLICT (id) DO NOTHING`, `ON CONFLICT (device_id) DO NOTHING`,
-- `ON CONFLICT (provider, subject) DO NOTHING`
unfoldable pub insert_user : ℕ → List ℕ → List ℕ
unfolding has_user
insert_user u l = if has_user u l then l else l ++ u ∷ []

unfoldable pub insert_device : AuthDevice → List AuthDevice → List AuthDevice
unfolding find_device
insert_device r l = elim (find_device r.device_id l) [ some u ↦ l | none ↦ l ++ r ∷ [] ]

unfoldable pub insert_identity : AuthIdentity → List AuthIdentity → List AuthIdentity
unfolding find_subject
insert_identity r l = elim (find_subject r.subject l) [ some u ↦ l | none ↦ l ++ r ∷ [] ]

-- `ON CONFLICT (device_id) DO UPDATE`
unfoldable pub upsert_device : AuthDevice → List AuthDevice → List AuthDevice
upsert_device r [] = r ∷ []
upsert_device r (x ∷ l) = if str_eq x.device_id r.device_id then r ∷ l else x ∷ upsert_device r l

-- `UPDATE … SET used_at = now() WHERE id = :id AND used_at IS NULL`, and whether a row matches.
abbrev pub use_row : ℕ → ℕ → AuthRefreshToken → AuthRefreshToken
use_row i now t = if t.id == i && is_null t.used_at then record t { used_at = some now } else t

unfoldable pub claimable : ℕ → List AuthRefreshToken → Bool
claimable i [] = false
claimable i (t ∷ l) = if t.id == i && is_null t.used_at then true else claimable i l

-- `UPDATE … SET revoked_at = now() WHERE user_id = … AND device_id = … AND revoked_at IS NULL`
abbrev pub revoke_row : ℕ → String → ℕ → AuthRefreshToken → AuthRefreshToken
revoke_row u d now t =
    if t.user_id == u && str_eq t.device_id d && is_null t.revoked_at
    then record t { revoked_at = some now }
    else t

abbrev pub audit_event : ℕ → String → String → AuditLog
audit_event u action d = record {
  user_id = u;
  generation_id = none;
  event_type = "auth_event";
  payload = ("action", Json.text action) ∷ ("deviceId", Json.text d) ∷ [];
}

-- `_revoke_chain`
unfoldable pub revoke_chain : ℕ → String → AuthDb → AuthDb
revoke_chain u d db = record db {
  tokens = map (revoke_row u d db.now) db.tokens;
  audit = db.audit ++ audit_event u "refresh_chain_revoked" d ∷ [];
}

-- A raise rolls back to what was there.
abbrev pub settled : {A : Type 0} → AuthDb → AuthResult A × AuthDb → AuthResult A × AuthDb
settled before (ok a, db) = (ok a, db)
settled before (err e, db) = (err e, before)

-- `device_id or str(uuid.uuid4())`
unfoldable pub resolved_device : Uuids → Option String → AuthDb → String × AuthDb
resolved_device ids none db = (ids.text (ids.gen db.drawn), record db { drawn = suc db.drawn })
resolved_device ids (some d) db =
    if str_eq d ""
    then (ids.text (ids.gen db.drawn), record db { drawn = suc db.drawn })
    else (d, db)

-- `_upsert_device`
unfoldable pub bind_device : String → ℕ → AuthDb → AuthDb
unfolding upsert_device
bind_device d u db = record db {
  devices = upsert_device (record { device_id = d; user_id = u }) db.devices;
}

-- The INSERT of a refresh token, which meets the primary key and the unique index on the hash.
unfoldable pub insert_token :
    AuthRefreshToken → List AuthRefreshToken → Option (List AuthRefreshToken)
unfolding find_token has_token_id
insert_token t l =
    if has_token_id t.id l
    then none
    else elim (find_token t.token_hash l) [ some _ ↦ none | none ↦ some (l ++ t ∷ []) ]

module _ (s : Issuer) where
  abbrev pub new_row : ℕ → String → AuthDb → AuthRefreshToken
  new_row u d db = record {
    id = s.ids.gen db.drawn;
    user_id = u;
    device_id = d;
    token_hash = s.hash_refresh (s.token_urlsafe db.secrets);
    expires_at = db.now + s.refresh_ttl;
    used_at = none;
    revoked_at = none;
  }

  abbrev pub pair_of : ℕ → String → AuthDb → IssuedTokens
  pair_of u d db = record {
    user_id = u;
    device_id = d;
    access_token = s.access_token u d db.now;
    expires_in = s.access_ttl_seconds;
    refresh_token = s.token_urlsafe db.secrets;
    refresh_expires_in = s.refresh_ttl;
  }

  abbrev pub issued :
      ℕ → String → AuthDb → Option (List AuthRefreshToken) → AuthResult IssuedTokens × AuthDb
  issued u d db none = (err integrity_error, db)
  issued u d db (some tokens) = (
    ok (pair_of u d db),
    record db { tokens = tokens; drawn = suc db.drawn; secrets = suc db.secrets },
  )

  -- `_issue_pair`
  unfoldable pub issue_pair : ℕ → String → AuthDb → AuthResult IssuedTokens × AuthDb
  unfolding insert_token
  issue_pair u d db =
      if s.configured
      then issued u d db (insert_token (new_row u d db) db.tokens)
      else (err service_unavailable, db)

  -- `_find_or_create_identity`, behind its first query, which found `seen`.
  unfoldable pub provisioned : String → AuthDb → AuthDb
  unfolding insert_user insert_device
  provisioned d db =
      let u = s.ids.gen db.drawn in
      record db {
        users = insert_user u db.users;
        devices = insert_device (record { device_id = d; user_id = u }) db.devices;
        drawn = suc db.drawn;
      }

  abbrev pub winner : Option ℕ → AuthDb → AuthResult ℕ × AuthDb
  winner none db = (err service_unavailable, db)
  winner (some u) db = (ok u, db)

  unfoldable pub find_or_create_identity : String → Option ℕ → AuthDb → AuthResult ℕ × AuthDb
  unfolding provisioned find_device
  find_or_create_identity d (some u) db = (ok u, db)
  find_or_create_identity d none db =
      winner (find_device d (provisioned d db).devices) (provisioned d db)

  abbrev pub then_issue : String → AuthResult ℕ × AuthDb → AuthResult IssuedTokens × AuthDb
  then_issue d (ok u, db) = issue_pair u d db
  then_issue d (err e, db) = (err e, db)

  unfoldable pub register_or_token :
      (AuthDb → AuthDb) → Option String → AuthDb → AuthResult IssuedTokens × AuthDb
  unfolding resolved_device find_device find_or_create_identity issue_pair
  register_or_token others device_id db =
      if s.configured
      then (let (d, at) = resolved_device s.ids device_id db in
          let seen = find_device d at.devices in
          settled (others at) (then_issue d (find_or_create_identity d seen (others at))))
      else (err service_unavailable, db)
