-- ===== src/Auth/Pair.antt =====
-- The refresh token of a pair that src/app/auth/service.py has issued is good for another pair.
use ai_text.Prelude.{
  some_inj, ℕ, ◌+◌, ◌<◌, ◌≡◌, refl, ap, sym, subst, ◌∙◌, inl, inr, String, true, false, Option,
  none, some, List, [], ◌∷◌, ◌++◌, map, arith, leb, ==-refl, str_eq, eq_refl, Bool-cases,
  Option-cases,
}
use ai_text.Auth.{
  AuthDb, AuthRefreshToken, Issuer, IssuedTokens, AuthResult, ok, err, find_device, find_token,
  has_token_id, insert_token, settled, use_row, claimable, is_null, resolved_device,
  find_or_create_identity, issued, issue_pair, new_row, then_issue, pair_of, register_or_token,
}
use ai_text.Auth.Outcome.{OnOk, if-OnOk, settled-OnOk}
use ai_text.Auth.Refresh.{claim, refresh_row, refresh}
use ai_text.Auth.Reach.{Reach, Reach-IsLater}
use ai_text.Auth.Later.{use_row-IsKept, has_token_id-map}

find_token-last :
    (t : AuthRefreshToken) (l : List AuthRefreshToken)
    → find_token t.token_hash l ≡ none
    → find_token t.token_hash (l ++ t ∷ []) ≡ some t
unfolding find_token
find_token-last t [] e = rw (eq_refl t.token_hash) refl
find_token-last t (x ∷ l) e = elim (Bool-cases (str_eq x.token_hash t.token_hash)) [
  | inl hit ↦ absurd (grind (arith, hit, e))
  | inr miss ↦ rw miss (find_token-last t l (rw miss at e))
]

insert_token-found :
    (t : AuthRefreshToken) (l l' : List AuthRefreshToken)
    → insert_token t l ≡ some l'
    → find_token t.token_hash l' ≡ some t
unfolding insert_token
insert_token-found t l l' e = elim (Bool-cases (has_token_id t.id l)) [
  | inl taken ↦ absurd (ground (arith, taken, e))
  | inr new ↦ elim (Option-cases (find_token t.token_hash l)) [
    | inl free ↦
        let same : l ++ t ∷ [] ≡ l' = grind (arith, new, free, e) in
        subst (λ k. find_token t.token_hash k ≡ some t) same (find_token-last t l free)
    | inr (x, there) ↦ absurd (grind (arith, new, there, e))
  ]
]

insert_token-new :
    (t : AuthRefreshToken) (l : List AuthRefreshToken)
    → has_token_id t.id l ≡ false
    → find_token t.token_hash l ≡ none
    → insert_token t l ≡ some (l ++ t ∷ [])
unfolding insert_token
insert_token-new t l new free = rw new (rw (free, insert_token) refl)

-- A row that is found and unused is claimed.
found-claimable :
    (h : String) (t : AuthRefreshToken) (l : List AuthRefreshToken)
    → find_token h l ≡ some t
    → is_null t.used_at ≡ true
    → claimable t.id l ≡ true
unfolding find_token claimable
found-claimable h t [] e fresh = absurd (cc)
found-claimable h t (x ∷ l) e fresh = elim (Bool-cases (str_eq x.token_hash h)) [
  | inl hit ↦
      let same : x ≡ t = some_inj (rw hit at e) in
      let open_ : is_null x.used_at ≡ true =
        ap (λ (y : AuthRefreshToken). is_null y.used_at) same ∙ fresh in
      subst (λ (y : AuthRefreshToken). claimable y.id (x ∷ l) ≡ true) same
        (ground (arith, open_, ==-refl x.id))
  | inr miss ↦ ground (arith, found-claimable h t l (rw miss at e) fresh)
]

-- A table whose rows keep their hashes has no other hash.
find_token-map-none :
    (h : String) (i now : ℕ) (l : List AuthRefreshToken)
    → find_token h l ≡ none
    → find_token h (map (use_row i now) l) ≡ none
unfolding find_token
find_token-map-none h i now [] e = refl
find_token-map-none h i now (x ∷ l) e = elim (Bool-cases (str_eq x.token_hash h)) [
  | inl hit ↦ absurd (grind (arith, hit, e))
  | inr miss ↦
      rw (ap (λ k. str_eq k h) (use_row-IsKept i now x).token_hash ∙ miss)
        (find_token-map-none h i now l (rw miss at e))
]

module _ (s : Issuer) where
  -- The row of the pair's refresh token as it is inserted.
  pub record IsLive (pair : IssuedTokens) (db : AuthDb) : Type 0 where
    pub on : s.configured ≡ true
    pub row : AuthRefreshToken
    pub there : find_token (s.hash_refresh pair.refresh_token) db.tokens ≡ some row
    pub user : row.user_id ≡ pair.user_id
    pub device : row.device_id ≡ pair.device_id
    pub expires : row.expires_at ≡ db.now + s.refresh_ttl
    pub unused : row.used_at ≡ none
    pub live : row.revoked_at ≡ none

  issued-IsLive :
      (u : ℕ) (d : String) (db : AuthDb) (o : Option (List AuthRefreshToken))
      → s.configured ≡ true
      → insert_token (new_row s u d db) db.tokens ≡ o
      → OnOk IsLive (issued s u d db o)
  issued-IsLive u d db none on e = tt
  issued-IsLive u d db (some tokens) on e = record {
    on = on;
    row = new_row s u d db;
    there = insert_token-found (new_row s u d db) db.tokens tokens e;
    user = refl;
    device = refl;
    expires = refl;
    unused = refl;
    live = refl;
  }

  pub issue_pair-IsLive : (u : ℕ) (d : String) (db : AuthDb) → OnOk IsLive (issue_pair s u d db)
  unfolding issue_pair
  issue_pair-IsLive u d db =
      if-OnOk IsLive s.configured _ _ (λ on. issued-IsLive u d db _ on refl) tt

  issue_pair-ok :
      (u : ℕ) (d : String) (db : AuthDb)
      → s.configured ≡ true
      → has_token_id (s.ids.gen db.drawn) db.tokens ≡ false
      → find_token (s.hash_refresh (s.token_urlsafe db.secrets)) db.tokens ≡ none
      → (issue_pair s u d db).0 ≡ ok (pair_of s u d db)
  unfolding issue_pair
  issue_pair-ok u d db on new free =
      simp (on, insert_token-new (new_row s u d db) db.tokens new free)

  then_issue-IsLive : (d : String) (r : AuthResult ℕ × AuthDb) → OnOk IsLive (then_issue s d r)
  then_issue-IsLive d (ok u, db) = issue_pair-IsLive u d db
  then_issue-IsLive d (err e, db) = tt

  register-IsLive :
      (others : AuthDb → AuthDb) (device_id : Option String) (db : AuthDb)
      → OnOk IsLive (register_or_token s others device_id db)
  unfolding register_or_token
  register-IsLive others device_id db =
      let (d, at) = resolved_device s.ids device_id db in
      if-OnOk IsLive s.configured _ _
        (λ on. settled-OnOk IsLive (others at) _ (
          then_issue-IsLive d (find_or_create_identity s d (find_device d at.devices) (others at))))
        tt

settled-result :
    (before : AuthDb) (r : AuthResult IssuedTokens × AuthDb) → (settled before r).0 ≡ r.0
settled-result before (ok pair, db) = refl
settled-result before (err e, db) = refl

module _ (s : Issuer) where
  claim-ok :
      (h : String) (row : AuthRefreshToken) (c : AuthDb)
      → s.configured ≡ true
      → find_token h c.tokens ≡ some row
      → is_null row.used_at ≡ true
      → has_token_id (s.ids.gen c.drawn) c.tokens ≡ false
      → find_token (s.hash_refresh (s.token_urlsafe c.secrets)) c.tokens ≡ none
      → (claim s row c).0 ≡ ok (pair_of s row.user_id row.device_id c)
  unfolding claim
  claim-ok h row c on there unused new free =
      let after = record c { tokens = map (use_row row.id c.now) c.tokens } in
      rw (found-claimable h row c.tokens there unused) (
        settled-result c (issue_pair s row.user_id row.device_id after)
        ∙ issue_pair-ok s row.user_id row.device_id after on
            (has_token_id-map (use_row row.id c.now) (use_row-IsKept row.id c.now)
                (s.ids.gen c.drawn) c.tokens
              ∙ new)
            (find_token-map-none (s.hash_refresh (s.token_urlsafe c.secrets)) row.id c.now c.tokens
              free))

  refresh-live :
      (token : String) (row : AuthRefreshToken) (c : AuthDb)
      → s.configured ≡ true
      → find_token (s.hash_refresh token) c.tokens ≡ some row
      → row.used_at ≡ none
      → row.revoked_at ≡ none
      → c.now < row.expires_at
      → refresh s (λ x. x) token c ≡ claim s row c
  unfolding refresh refresh_row
  refresh-live token row c on there unused live early =
      let in_time : leb row.expires_at c.now ≡ false = ground (arith, early) in
      simp (on, there, ap is_null unused, ap is_null live, in_time)

  -- When a registration has returned a pair, its refresh token is good for another pair of the same
  -- user and device at any later time, whatever the service's methods did since, as long as its row is
  -- neither used nor revoked and has not expired, no other session comes between the query and the
  -- writes of the refresh, and the next identifier and the hash of the next secret are not in the
  -- table yet.
  pub refresh_of_pair :
      (others : AuthDb → AuthDb) (device_id : Option String) (a b c : AuthDb) (pair : IssuedTokens)
      (row : AuthRefreshToken)
      → register_or_token s others device_id a ≡ (ok pair, b)
      → Reach s b c
      → find_token (s.hash_refresh pair.refresh_token) c.tokens ≡ some row
      → row.used_at ≡ none
      → row.revoked_at ≡ none
      → c.now < b.now + s.refresh_ttl
      → has_token_id (s.ids.gen c.drawn) c.tokens ≡ false
      → find_token (s.hash_refresh (s.token_urlsafe c.secrets)) c.tokens ≡ none
      → (next : IssuedTokens) × ((refresh s (λ x. x) pair.refresh_token c).0 ≡ ok next)
        × (next.user_id ≡ pair.user_id)
        × (next.device_id ≡ pair.device_id)
  refresh_of_pair others device_id a b c pair row first since there unused live early new free =
      let k : IsLive s pair b =
        subst (OnOk (IsLive s)) first (register-IsLive s others device_id a) in
      let (t, found, kept) =
        (Reach-IsLater s since).tokens.kept (s.hash_refresh pair.refresh_token) k.row k.there in
      let same : t ≡ row = some_inj (sym found ∙ there) in
      (
        pair_of s row.user_id row.device_id c,
        ap (λ r. r.0)
              (refresh-live pair.refresh_token row c k.on there unused live (
                omega (
                  arith,
                  k.expires,
                  kept.expires,
                  ap (λ (x : AuthRefreshToken). x.expires_at) same,
                  early,
                )))
            ∙ claim-ok (s.hash_refresh pair.refresh_token) row c k.on there (ap is_null unused) new
                free,
        ap (λ (x : AuthRefreshToken). x.user_id) (sym same) ∙ kept.user_id ∙ k.user,
        ap (λ (x : AuthRefreshToken). x.device_id) (sym same) ∙ kept.device_id ∙ k.device,
      )
