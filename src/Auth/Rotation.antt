-- ===== src/Auth/Rotation.antt =====
-- A refresh token of src/app/auth/service.py is used at most once, whatever runs at the same time.
use ai_text.Prelude.{
  some_inj, ℕ, ◌≡◌, refl, ap, subst, ◌∙◌, inl, inr, String, true, false, not, Option, none, some,
  List, [], ◌∷◌, map, arith, leb, ==-refl, str_eq, Bool-cases,
}
use ai_text.Auth.{
  AuthDb, AuthRefreshToken, Issuer, IssuedTokens, find_token, has_token_id, is_null, issue_pair,
  use_row, claimable,
}
use ai_text.Auth.Refresh.{reused, claim, refresh_row, refresh}
use ai_text.Auth.Outcome.{OnOk, if-OnOk, settled-OnOk, always-OnOk}
use ai_text.Auth.Later.{AreKept, AreUnique, find_token-map, use_row-IsKept}
use ai_text.Auth.State.{IsLater, issue_pair-IsLater}

-- The row of the token is there and used.
pub record IsUsed (h : String) (l : List AuthRefreshToken) : Type 0 where
  pub row : AuthRefreshToken
  pub there : find_token h l ≡ some row
  pub used : is_null row.used_at ≡ false

IsUsed-later : (h : String) (l l' : List AuthRefreshToken) → AreKept l l' → IsUsed h l → IsUsed h l'
IsUsed-later h l l' k u =
    let (t, there, kept) = k.kept h u.row u.there in
    record { row = t; there = there; used = kept.used u.used }

use_row-used :
    (i now : ℕ) (t : AuthRefreshToken) → t.id ≡ i → is_null (use_row i now t).used_at ≡ false
use_row-used i now t e = elim (Bool-cases (is_null t.used_at)) [
  | inl fresh ↦ ground (arith, e, fresh)
  | inr used ↦ ground (arith, e, used)
]

module _ (s : Issuer) where
  abbrev pub HasUsed : String → IssuedTokens → AuthDb → Type 0
  HasUsed token pair db = (s.configured ≡ true) × IsUsed (s.hash_refresh token) db.tokens

  reused-OnOk :
      (P : IssuedTokens → AuthDb → Type 0) (row : AuthRefreshToken) (db : AuthDb)
      → OnOk P (reused s row db)
  unfolding reused
  reused-OnOk P row db = tt

  claim-OnOk :
      (h : String) (row row' : AuthRefreshToken) (db : AuthDb)
      → s.configured ≡ true
      → find_token h db.tokens ≡ some row'
      → row'.id ≡ row.id
      → OnOk (λ pair b. (s.configured ≡ true) × IsUsed h b.tokens) (claim s row db)
  unfolding claim
  claim-OnOk h row row' db on there same =
      let after = record db { tokens = map (use_row row.id db.now) db.tokens } in
      let used : IsUsed h after.tokens = record {
        row = use_row row.id db.now row';
        there =
            find_token-map (use_row row.id db.now) (use_row-IsKept row.id db.now) h row' db.tokens
              there;
        used = use_row-used row.id db.now row' same;
      } in
      let r = issue_pair s row.user_id row.device_id after in
      if-OnOk (λ pair b. (s.configured ≡ true) × IsUsed h b.tokens) (claimable row.id db.tokens) _ _
        (λ won.
          settled-OnOk (λ pair b. (s.configured ≡ true) × IsUsed h b.tokens) db r
            (always-OnOk (λ pair b. (s.configured ≡ true) × IsUsed h b.tokens) r
              (λ pair. (
                on,
                IsUsed-later h after.tokens r.1.tokens
                    (issue_pair-IsLater s row.user_id row.device_id after).tokens used,
              ))))
        (reused-OnOk (λ pair b. (s.configured ≡ true) × IsUsed h b.tokens) row db)

  refresh_row-OnOk :
      (others : AuthDb → AuthDb) (token : String) (o : Option AuthRefreshToken) (db : AuthDb)
      → s.configured ≡ true
      → find_token (s.hash_refresh token) db.tokens ≡ o
      → IsLater db (others db)
      → OnOk (HasUsed token) (refresh_row s others o db)
  unfolding refresh_row reused
  refresh_row-OnOk others token none db on seen later = tt
  refresh_row-OnOk others token (some row) db on seen later =
      let (row', there, kept) = later.tokens.kept (s.hash_refresh token) row seen in
      if-OnOk (HasUsed token) (not (is_null row.used_at)) _ _ (λ _. tt)
        (if-OnOk (HasUsed token) (not (is_null row.revoked_at)) _ _ (λ _. tt)
          (if-OnOk (HasUsed token) (leb row.expires_at db.now) _ _ (λ _. tt)
            (claim-OnOk (s.hash_refresh token) row row' (others db) on there kept.id)))

  pub refresh-OnOk :
      (others : AuthDb → AuthDb) (token : String) (db : AuthDb)
      → IsLater db (others db)
      → OnOk (HasUsed token) (refresh s others token db)
  unfolding refresh
  refresh-OnOk others token db later =
      if-OnOk (HasUsed token) s.configured _ _
        (λ on.
          refresh_row-OnOk others token (find_token (s.hash_refresh token) db.tokens) db on refl
            later)
        tt

find_token-has_id :
    (h : String) (t : AuthRefreshToken) (l : List AuthRefreshToken)
    → find_token h l ≡ some t
    → has_token_id t.id l ≡ true
unfolding find_token has_token_id
find_token-has_id h t [] e = absurd (cc)
find_token-has_id h t (x ∷ l) e = elim (Bool-cases (str_eq x.token_hash h)) [
  | inl hit ↦
      subst (λ (y : AuthRefreshToken). has_token_id y.id (x ∷ l) ≡ true) (some_inj (rw hit at e))
        (rw (==-refl x.id) refl)
  | inr miss ↦ ground (arith, find_token-has_id h t l (rw miss at e))
]

claimable-has_id :
    (i : ℕ) (l : List AuthRefreshToken) → has_token_id i l ≡ false → claimable i l ≡ false
unfolding has_token_id claimable
claimable-has_id i [] e = refl
claimable-has_id i (x ∷ l) e = ground (arith, claimable-has_id i l)

-- No row has the identifier of a used one and is unused.
pub used-claimable :
    (h : String) (t : AuthRefreshToken) (l : List AuthRefreshToken)
    → AreUnique l
    → find_token h l ≡ some t
    → is_null t.used_at ≡ false
    → claimable t.id l ≡ false
unfolding find_token claimable
used-claimable h t [] unique e used = refl
used-claimable h t (x ∷ l) (alone, unique) e used = elim (Bool-cases (str_eq x.token_hash h)) [
  | inl hit ↦
      let same : x ≡ t = some_inj (rw hit at e) in
      let fresh : is_null x.used_at ≡ false =
        ap (λ (y : AuthRefreshToken). is_null y.used_at) same ∙ used in
      subst (λ (y : AuthRefreshToken). claimable y.id (x ∷ l) ≡ false) same
        (ground (arith, fresh, claimable-has_id x.id l alone))
  | inr miss ↦
      let later : find_token h l ≡ some t = rw miss at e in
      let has = find_token-has_id h t l later in
      ground (arith, alone, has, used-claimable h t l unique later used)
]
