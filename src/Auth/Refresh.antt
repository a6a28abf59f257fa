-- ===== src/Auth/Refresh.antt =====
-- `refresh` of src/app/auth/service.py: a refresh token is used once.
use ai_text.Prelude.{String, not, Option, none, some, map, leb, if◌then◌else◌}
use ai_text.Auth.{
  AuthDb, AuthRefreshToken, Issuer, IssuedTokens, AuthResult, err, service_unavailable,
  unauthorized, is_null, find_token, use_row, claimable, revoke_chain, settled, issue_pair,
}

module _ (s : Issuer) where
  -- "refresh token reuse detected", behind a commit.
  unfoldable pub reused : AuthRefreshToken → AuthDb → AuthResult IssuedTokens × AuthDb
  unfolding revoke_chain
  reused row db = (err unauthorized, revoke_chain row.user_id row.device_id db)

  -- The conditional UPDATE, and what follows; `row` is what the first query read.
  unfoldable pub claim : AuthRefreshToken → AuthDb → AuthResult IssuedTokens × AuthDb
  unfolding claimable reused issue_pair
  claim row db =
      if claimable row.id db.tokens
      then settled db (
          issue_pair s row.user_id row.device_id
            (record db { tokens = map (use_row row.id db.now) db.tokens }))
      else reused row db

  -- Behind the first query, which was made at the time `now`.
  unfoldable pub refresh_row :
      (AuthDb → AuthDb) → Option AuthRefreshToken → AuthDb → AuthResult IssuedTokens × AuthDb
  unfolding reused claim
  refresh_row others none db = (err unauthorized, db)
  refresh_row others (some row) db =
      if not (is_null row.used_at)
      then reused row (others db)
      else if not (is_null row.revoked_at)
      then (err unauthorized, db)
      else if leb row.expires_at db.now
      then (err unauthorized, db)
      else claim row (others db)

  unfoldable pub refresh : (AuthDb → AuthDb) → String → AuthDb → AuthResult IssuedTokens × AuthDb
  unfolding find_token refresh_row
  refresh others refresh_token db =
      if s.configured
      then refresh_row others (find_token (s.hash_refresh refresh_token) db.tokens) db
      else (err service_unavailable, db)
