-- ===== src/Auth/Once.antt =====
-- The reuse of a refresh token (src/app/auth/service.py): what the second use gets, and what becomes
-- of the other tokens of the device.
use ai_text.Prelude.{
  some_inj, ℕ, ◌<◌, ◌≡◌, refl, ap, sym, subst, ◌∙◌, ◌⊎◌, inl, inr, String, Bool, true, false, not,
  Option, none, some, List, [], ◌∷◌, map, arith, leb, str_eq, eq_refl, if◌then◌else◌, Bool-cases,
}
use ai_text.Auth.{
  AuthDb, AuthRefreshToken, Issuer, IssuedTokens, AuthResult, ok, err, unauthorized, find_token,
  is_null, claimable, revoke_row, revoke_chain,
}
use ai_text.Auth.Refresh.{reused, claim, refresh_row, refresh}
use ai_text.Auth.Later.{AreUnique, revoke_row-IsKept}
use ai_text.Auth.Reach.{Reach, Reach-IsLater}
use ai_text.Auth.State.{IsLater}
use ai_text.Auth.Outcome.{OnOk}
use ai_text.Auth.Rotation.{IsUsed, HasUsed, refresh-OnOk, used-claimable}

if-refused :
    (b : Bool) (x y : AuthResult IssuedTokens × AuthDb)
    → x.0 ≡ err unauthorized
    → (b ≡ false → y.0 ≡ err unauthorized)
    → (if b then x else y).0 ≡ err unauthorized
if-refused true x y h k = h
if-refused false x y h k = k refl

if-on :
    (b : Bool) (x y : AuthResult IssuedTokens × AuthDb)
    → b ≡ true
    → x.0 ≡ err unauthorized
    → (if b then x else y).0 ≡ err unauthorized
if-on true x y on h = h
if-on false x y on h = absurd (cc)

module _ (s : Issuer) where
  abbrev IsRefused : AuthResult IssuedTokens × AuthDb → Type 0
  IsRefused r = r.0 ≡ err unauthorized

  reused-IsRefused : (row : AuthRefreshToken) (db : AuthDb) → IsRefused (reused s row db)
  unfolding reused
  reused-IsRefused row db = refl

  -- The row that was read is used by the time of the UPDATE.
  lost-claimable :
      (h : String) (row : AuthRefreshToken) (a b : AuthDb)
      → find_token h a.tokens ≡ some row
      → IsLater a b
      → AreUnique b.tokens
      → IsUsed h b.tokens
      → claimable row.id b.tokens ≡ false
  lost-claimable h row a b seen later unique used =
      let (t, there, kept) = later.tokens.kept h row seen in
      let same : t ≡ used.row = some_inj (sym there ∙ used.there) in
      ap (λ i. claimable i b.tokens) (sym kept.id)
      ∙ used-claimable h t b.tokens unique there
          (ap (λ (x : AuthRefreshToken). is_null x.used_at) same ∙ used.used)

  refresh_row-IsRefused :
      (others : AuthDb → AuthDb) (h : String) (o : Option AuthRefreshToken) (db : AuthDb)
      → find_token h db.tokens ≡ o
      → IsLater db (others db)
      → AreUnique (others db).tokens
      → IsUsed h (others db).tokens
      → IsRefused (refresh_row s others o db)
  unfolding refresh_row claim
  refresh_row-IsRefused others h none db seen later unique used = refl
  refresh_row-IsRefused others h (some row) db seen later unique used =
      if-refused (not (is_null row.used_at)) _ _ (reused-IsRefused row (others db)) (λ _.
        if-refused (not (is_null row.revoked_at)) _ _ refl (λ _.
          if-refused (leb row.expires_at db.now) _ _ refl (λ _.
            rw (lost-claimable h row db (others db) seen later unique used)
              (reused-IsRefused row (others db)))))

  refused :
      (others : AuthDb → AuthDb) (token : String) (a : AuthDb)
      → s.configured ≡ true
      → IsLater a (others a)
      → AreUnique a.tokens
      → IsUsed (s.hash_refresh token) (others a).tokens
      → IsRefused (refresh s others token a)
  unfolding refresh
  refused others token a on later unique used = if-on s.configured _ _ on (
      refresh_row-IsRefused others (s.hash_refresh token)
        (find_token (s.hash_refresh token) a.tokens) a refl later (later.tokens.unique unique) used)

  -- Once a refresh has returned a pair for a token, every other refresh of the token is refused as
  -- unauthorized if its writes come later, even if it read the token's row before the first one
  -- claimed it, and whatever the service's methods did in between. The identifiers of the rows that
  -- the second one reads are unique.
  pub refresh_once :
      (others others' : AuthDb → AuthDb) (token : String) (a a' b : AuthDb) (pair : IssuedTokens)
      → Reach s a (others a)
      → refresh s others token a ≡ (ok pair, b)
      → Reach s b (others' a')
      → Reach s a' (others' a')
      → AreUnique a'.tokens
      → (refresh s others' token a').0 ≡ err unauthorized
  refresh_once others others' token a a' b pair meanwhile first after meanwhile' unique =
      let (on, used) : HasUsed s token pair b =
        subst (OnOk (HasUsed s token)) first
          (refresh-OnOk s others token a (Reach-IsLater s meanwhile)) in
      let (t, there, kept) =
        (Reach-IsLater s after).tokens.kept (s.hash_refresh token) used.row used.there in
      refused others' token a' on (Reach-IsLater s meanwhile') unique
        (record { row = t; there = there; used = kept.used used.used })

-- The rows that a revocation leaves behind.
revoke_row-revoked :
    (u now : ℕ) (d : String) (x : AuthRefreshToken)
    → x.user_id ≡ u
    → x.device_id ≡ d
    → is_null (revoke_row u d now x).revoked_at ≡ false
revoke_row-revoked u now d x at_user at_device =
    let same : str_eq x.device_id d ≡ true = ap (λ k. str_eq k d) at_device ∙ eq_refl d in
    elim (Bool-cases (is_null x.revoked_at)) [
      | inl live ↦ ground (arith, at_user, same, live)
      | inr dead ↦ ground (arith, at_user, same, dead)
    ]

found-revoked :
    (h : String) (u now : ℕ) (d : String) (l : List AuthRefreshToken) (t : AuthRefreshToken)
    → find_token h (map (revoke_row u d now) l) ≡ some t
    → t.user_id ≡ u
    → t.device_id ≡ d
    → is_null t.revoked_at ≡ false
unfolding find_token
found-revoked h u now d [] t e at_user at_device = absurd (cc)
found-revoked h u now d (x ∷ l) t e at_user at_device =
    let y : AuthRefreshToken = revoke_row u d now x in
    let kept = revoke_row-IsKept u d now x in
    elim (Bool-cases (str_eq y.token_hash h)) [
      | inl hit ↦
          let same : y ≡ t = some_inj (rw hit at e) in
          ap (λ (z : AuthRefreshToken). is_null z.revoked_at) (sym same)
          ∙ revoke_row-revoked u now d x
              (sym kept.user_id ∙ ap (λ (z : AuthRefreshToken). z.user_id) same ∙ at_user)
              (sym kept.device_id ∙ ap (λ (z : AuthRefreshToken). z.device_id) same ∙ at_device)
      | inr miss ↦ found-revoked h u now d l t (rw miss at e) at_user at_device
    ]

module _ (s : Issuer) where
  -- A refresh that meets the token used, at its first query or at the UPDATE.
  abbrev pub Reuses : (AuthDb → AuthDb) → String → AuthDb → AuthRefreshToken → Type 0
  Reuses others token a row =
      (is_null row.used_at ≡ false)
      ⊎ ((is_null row.revoked_at ≡ true)
          × (a.now < row.expires_at)
          × AreUnique a.tokens
          × IsUsed (s.hash_refresh token) (others a).tokens)

  refresh-reused :
      (others : AuthDb → AuthDb) (token : String) (a : AuthDb) (row : AuthRefreshToken)
      → s.configured ≡ true
      → IsLater a (others a)
      → find_token (s.hash_refresh token) a.tokens ≡ some row
      → Reuses others token a row
      → refresh s others token a ≡ reused s row (others a)
  unfolding refresh refresh_row claim
  refresh-reused others token a row on later seen (inl used) = simp (on, seen, used)
  refresh-reused others token a row on later seen (inr (live, early, unique, used)) =
      let lost =
        lost-claimable s (s.hash_refresh token) row a (others a) seen later
          (later.tokens.unique unique) used in
      let in_time : leb row.expires_at a.now ≡ false = ground (arith, early) in
      elim (Bool-cases (is_null row.used_at)) [
        | inl fresh ↦ simp (on, seen, fresh, live, in_time, lost)
        | inr old ↦ simp (on, seen, old)
      ]

  revoked_row-IsRefused :
      (others : AuthDb → AuthDb) (token : String) (c : AuthDb) (t : AuthRefreshToken)
      → s.configured ≡ true
      → find_token (s.hash_refresh token) c.tokens ≡ some t
      → is_null t.revoked_at ≡ false
      → IsRefused s (refresh s others token c)
  unfolding refresh refresh_row reused
  revoked_row-IsRefused others token c t on seen revoked = elim (Bool-cases (is_null t.used_at)) [
    | inl fresh ↦ simp (on, seen, fresh, revoked)
    | inr old ↦ simp (on, seen, old)
  ]

  -- A refresh that meets its token used, at its first query or at the UPDATE, is refused as
  -- unauthorized, and every refresh token of the same user and device that is in the table then is
  -- dead: whatever the service's methods do afterwards, a refresh with it is refused.
  pub refresh_reuse :
      (others others' : AuthDb → AuthDb) (token token' : String) (a c : AuthDb)
      (row t : AuthRefreshToken)
      → s.configured ≡ true
      → Reach s a (others a)
      → find_token (s.hash_refresh token) a.tokens ≡ some row
      → Reuses others token a row
      → find_token (s.hash_refresh token') (refresh s others token a).1.tokens ≡ some t
      → t.user_id ≡ row.user_id
      → t.device_id ≡ row.device_id
      → Reach s (refresh s others token a).1 c
      → ((refresh s others token a).0 ≡ err unauthorized)
        × ((refresh s others' token' c).0 ≡ err unauthorized)
  unfolding reused revoke_chain
  refresh_reuse others others' token token' a c row t on meanwhile seen reuse there at_user
        at_device after =
      let same = refresh-reused others token a row on (Reach-IsLater s meanwhile) seen reuse in
      let mid = others a in
      let dead : is_null t.revoked_at ≡ false =
        found-revoked (s.hash_refresh token') row.user_id mid.now row.device_id mid.tokens t
          (ap (λ r. find_token (s.hash_refresh token') r.1.tokens) (sym same) ∙ there) at_user
          at_device in
      let (t', there', kept) =
        (Reach-IsLater s after).tokens.kept (s.hash_refresh token') t there in
      (ap (λ r. r.0) same, revoked_row-IsRefused others' token' c t' on there' (kept.revoked dead))
