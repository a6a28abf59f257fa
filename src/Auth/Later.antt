-- ===== src/Auth/Later.antt =====
-- What every method of src/app/auth/service.py keeps: rows of refresh tokens stay, and are never made
-- unused or unrevoked; identities stay; identifiers of tokens stay unique.
use ai_text.Prelude.{
  ℕ, ◌≡◌, refl, ap, subst, ◌∙◌, inl, inr, String, Bool, true, false, ◌&&◌, none, some, List, [],
  ◌∷◌, ◌++◌, map, arith, ◌==◌, str_eq, if◌then◌else◌, Bool-cases, Option-cases,
}
use ai_text.Auth.{
  AuthRefreshToken, AuthIdentity, is_null, find_token, find_subject, has_token_id, insert_token,
  insert_identity, use_row, revoke_row,
}

pub record IsKept (t t' : AuthRefreshToken) : Type 0 where
  pub id : t'.id ≡ t.id
  pub user_id : t'.user_id ≡ t.user_id
  pub device_id : t'.device_id ≡ t.device_id
  pub token_hash : t'.token_hash ≡ t.token_hash
  pub expires : t'.expires_at ≡ t.expires_at
  pub used : is_null t.used_at ≡ false → is_null t'.used_at ≡ false
  pub revoked : is_null t.revoked_at ≡ false → is_null t'.revoked_at ≡ false

pub IsKept-refl : (t : AuthRefreshToken) → IsKept t t
IsKept-refl t = record {
  id = refl;
  user_id = refl;
  device_id = refl;
  token_hash = refl;
  expires = refl;
  used = λ h. h;
  revoked = λ h. h;
}

abbrev pub AreUnique : List AuthRefreshToken → Type 0
AreUnique [] = Unit
AreUnique (t ∷ l) = (has_token_id t.id l ≡ false) × AreUnique l

-- The rows of one table at a later time.
pub record AreKept (l l' : List AuthRefreshToken) : Type 0 where
  pub kept :
      (h : String) (t : AuthRefreshToken)
      → find_token h l ≡ some t
      → (t' : AuthRefreshToken) × (find_token h l' ≡ some t') × IsKept t t'
  pub unique : AreUnique l → AreUnique l'

pub AreKept-refl : (l : List AuthRefreshToken) → AreKept l l
AreKept-refl l = record { kept = λ h t e. (t, e, IsKept-refl t); unique = λ h. h }

pub AreKept-trans : (a b c : List AuthRefreshToken) → AreKept a b → AreKept b c → AreKept a c
AreKept-trans a b c f g = record {
  kept = λ h t e.
      let (t', e', k) = f.kept h t e in
      let (t'', e'', k') = g.kept h t' e' in
      (
        t'',
        e'',
        record {
          id = k'.id ∙ k.id;
          user_id = k'.user_id ∙ k.user_id;
          device_id = k'.device_id ∙ k.device_id;
          token_hash = k'.token_hash ∙ k.token_hash;
          expires = k'.expires ∙ k.expires;
          used = λ x. k'.used (k.used x);
          revoked = λ x. k'.revoked (k.revoked x);
        },
      );
  unique = λ h. g.unique (f.unique h);
}

module _ (f : AuthRefreshToken → AuthRefreshToken)
    (keeps : (t : AuthRefreshToken) → IsKept t (f t)) where
  pub find_token-map :
      (h : String) (t : AuthRefreshToken) (l : List AuthRefreshToken)
      → find_token h l ≡ some t
      → find_token h (map f l) ≡ some (f t)
  unfolding find_token
  find_token-map h t [] e = absurd (cc)
  find_token-map h t (x ∷ l) e = elim (Bool-cases (str_eq x.token_hash h)) [
    | inl hit ↦
        rw (ap (λ k. str_eq k h) (keeps x).token_hash ∙ hit)
          (ap (λ o. elim o [ none ↦ none | some y ↦ some (f y) ]) (rw hit at e))
    | inr miss ↦
        rw (ap (λ k. str_eq k h) (keeps x).token_hash ∙ miss) (find_token-map h t l (rw miss at e))
  ]

  pub has_token_id-map :
      (i : ℕ) (l : List AuthRefreshToken) → has_token_id i (map f l) ≡ has_token_id i l
  unfolding has_token_id
  has_token_id-map i [] = refl
  has_token_id-map i (x ∷ l) = rw ((keeps x).id, has_token_id-map i l) refl

  map-AreUnique : (l : List AuthRefreshToken) → AreUnique l → AreUnique (map f l)
  map-AreUnique [] h = tt
  map-AreUnique (x ∷ l) (h, hs) = (
    ap (λ i. has_token_id i (map f l)) (keeps x).id ∙ has_token_id-map x.id l ∙ h,
    map-AreUnique l hs,
  )

  pub map-AreKept : (l : List AuthRefreshToken) → AreKept l (map f l)
  map-AreKept l = record {
    kept = λ h t e. (f t, find_token-map h t l e, keeps t);
    unique = map-AreUnique l;
  }

pub use_row-IsKept : (i now : ℕ) (t : AuthRefreshToken) → IsKept t (use_row i now t)
use_row-IsKept i now t = by_test (t.id == i && is_null t.used_at)
  where
    by_test : (b : Bool) → IsKept t (if b then record t { used_at = some now } else t)
    by_test true = record {
      id = refl;
      user_id = refl;
      device_id = refl;
      token_hash = refl;
      expires = refl;
      used = λ h. refl;
      revoked = λ h. h;
    }
    by_test false = IsKept-refl t

pub revoke_row-IsKept :
    (u : ℕ) (d : String) (now : ℕ) (t : AuthRefreshToken) → IsKept t (revoke_row u d now t)
revoke_row-IsKept u d now t =
    by_test (t.user_id == u && str_eq t.device_id d && is_null t.revoked_at)
  where
    by_test : (b : Bool) → IsKept t (if b then record t { revoked_at = some now } else t)
    by_test true = record {
      id = refl;
      user_id = refl;
      device_id = refl;
      token_hash = refl;
      expires = refl;
      used = λ h. h;
      revoked = λ h. refl;
    }
    by_test false = IsKept-refl t

find_token-append :
    (h : String) (t x : AuthRefreshToken) (l : List AuthRefreshToken)
    → find_token h l ≡ some t
    → find_token h (l ++ x ∷ []) ≡ some t
unfolding find_token
find_token-append h t x [] e = absurd (cc)
find_token-append h t x (y ∷ l) e = elim (Bool-cases (str_eq y.token_hash h)) [
  | inl hit ↦ rw hit (rw hit at e)
  | inr miss ↦ rw miss (find_token-append h t x l (rw miss at e))
]

has_token_id-append :
    (i : ℕ) (x : AuthRefreshToken) (l : List AuthRefreshToken)
    → has_token_id i l ≡ false
    → (x.id == i) ≡ false
    → has_token_id i (l ++ x ∷ []) ≡ false
unfolding has_token_id
has_token_id-append i x [] h k = rw k refl
has_token_id-append i x (y ∷ l) h k = ground (arith, has_token_id-append i x l)

append-AreUnique :
    (x : AuthRefreshToken) (l : List AuthRefreshToken)
    → AreUnique l
    → has_token_id x.id l ≡ false
    → AreUnique (l ++ x ∷ [])
unfolding has_token_id
append-AreUnique x [] h k = (refl, tt)
append-AreUnique x (y ∷ l) (h, hs) k =
    (has_token_id-append y.id x l h (ground arith), append-AreUnique x l hs (ground arith))

pub insert_token-AreKept :
    (t : AuthRefreshToken) (l l' : List AuthRefreshToken)
    → insert_token t l ≡ some l'
    → AreKept l l'
unfolding insert_token
insert_token-AreKept t l l' e = elim (Bool-cases (has_token_id t.id l)) [
  | inl taken ↦ absurd (ground (arith, taken, e))
  | inr new ↦ elim (Option-cases (find_token t.token_hash l)) [
    | inl free ↦
        let same : l ++ t ∷ [] ≡ l' = grind (arith, new, free, e) in
        subst (AreKept l) same (record {
          kept = λ h x at. (x, find_token-append h x t l at, IsKept-refl x);
          unique = λ h. append-AreUnique t l h new;
        })
    | inr (x, there) ↦ absurd (grind (arith, new, there, e))
  ]
]

pub find_subject-append :
    (sub : String) (u : ℕ) (x : AuthIdentity) (l : List AuthIdentity)
    → find_subject sub l ≡ some u
    → find_subject sub (l ++ x ∷ []) ≡ some u
unfolding find_subject
find_subject-append sub u x [] e = absurd (cc)
find_subject-append sub u x (y ∷ l) e = elim (Bool-cases (str_eq y.subject sub)) [
  | inl hit ↦ rw hit (rw hit at e)
  | inr miss ↦ rw miss (find_subject-append sub u x l (rw miss at e))
]

pub insert_identity-kept :
    (sub : String) (u : ℕ) (x : AuthIdentity) (l : List AuthIdentity)
    → find_subject sub l ≡ some u
    → find_subject sub (insert_identity x l) ≡ some u
unfolding insert_identity
insert_identity-kept sub u x l e = elim (Option-cases (find_subject x.subject l)) [
  | inl free ↦ rw (free, insert_identity) (find_subject-append sub u x l e)
  | inr (v, there) ↦ rw (there, insert_identity) e
]
