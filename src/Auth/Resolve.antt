-- ===== src/Auth/Resolve.antt =====
-- `resolve_user` of src/app/billing_common/resolve.py: the user that a payment channel means. What
-- Python and PostgreSQL do to the texts is an argument.
use ai_text.Prelude.{
  some_inj, ℕ, ◌≤◌, ◌≡◌, refl, ap, sym, ◌∙◌, ◌⊎◌, inl, inr, String, true, false, Option, none, some,
  List, [], ◌∷◌, arith, leb, min, str_eq, if◌then◌else◌, Bool-cases, Option-cases, Among, All,
}
use ai_text.Auth.{AuthDb, AuthDevice, has_user}

-- `str.strip`, `str.lower` and `uuid.UUID`, which raises on most texts, and the `lower` of PostgreSQL,
-- which may differ from `str.lower` outside ASCII.
pub record Texts : Type 0 where
  pub strip : String → String
  pub lower : String → String
  pub sql_lower : String → String
  pub uuid : String → Option ℕ

pub data ResolvedVia : Type 0 where
  user_id device_id : ResolvedVia

abbrev least : ℕ → Option ℕ → ℕ
least u none = u
least u (some v) = min u v

abbrev pub via_device : Option ℕ → Option (ℕ × ResolvedVia)
via_device none = none
via_device (some u) = some (u, device_id)

module _ (py : Texts) where
  -- `SELECT user_id … WHERE lower(device_id) = :x ORDER BY user_id LIMIT 1`
  unfoldable pub device_user : String → List AuthDevice → Option ℕ
  device_user x [] = none
  device_user x (r ∷ l) =
      let rest = device_user x l in
      if str_eq (py.sql_lower r.device_id) x then some (least r.user_id rest) else rest

  abbrev pub existing : List ℕ → Option ℕ → Option ℕ
  existing users none = none
  existing users (some u) = if has_user u users then some u else none

  unfoldable pub resolve_user : String → AuthDb → Option (ℕ × ResolvedVia)
  unfolding device_user has_user
  resolve_user x db =
      let candidate = py.strip x in
      if str_eq candidate "" then none else elim (existing db.users (py.uuid candidate)) [
        | some u ↦ some (u, user_id)
        | none ↦ via_device (device_user (py.lower candidate) db.devices)
      ]

  -- A device of the user whose name PostgreSQL lowers to this one.
  abbrev pub Bears : String → ℕ → AuthDevice → Type 0
  Bears x u r = (str_eq (py.sql_lower r.device_id) x ≡ true) × (r.user_id ≡ u)

  pub record IsLeast (x : String) (l : List AuthDevice) (u : ℕ) : Type 0 where
    pub device : AuthDevice
    pub among : Among device l
    pub bears : Bears x u device
    pub least : All (λ r. str_eq (py.sql_lower r.device_id) x ≡ true → u ≤ r.user_id) l

  abbrev pub IsFound : String → List AuthDevice → Option ℕ → Type 0
  IsFound x l none = All (λ r. str_eq (py.sql_lower r.device_id) x ≡ false) l
  IsFound x l (some u) = IsLeast x l u

  missed-IsFound :
      (x : String) (r : AuthDevice) (l : List AuthDevice) (o : Option ℕ)
      → str_eq (py.sql_lower r.device_id) x ≡ false
      → IsFound x l o
      → IsFound x (r ∷ l) o
  missed-IsFound x r l none miss h = (miss, h)
  missed-IsFound x r l (some u) miss h = record {
    device = h.device;
    among = inr h.among;
    bears = h.bears;
    least = (λ hit. absurd (grind (arith, hit, miss)), h.least);
  }

  All-below :
      (x : String) (u v : ℕ) (l : List AuthDevice)
      → v ≤ u
      → All (λ r. str_eq (py.sql_lower r.device_id) x ≡ true → u ≤ r.user_id) l
      → All (λ r. str_eq (py.sql_lower r.device_id) x ≡ true → v ≤ r.user_id) l
  All-below x u v [] le h = tt
  All-below x u v (r ∷ l) le (h, hs) = (λ hit. omega (arith, le, h hit), All-below x u v l le hs)

  All-none :
      (x : String) (u : ℕ) (l : List AuthDevice)
      → All (λ r. str_eq (py.sql_lower r.device_id) x ≡ false) l
      → All (λ r. str_eq (py.sql_lower r.device_id) x ≡ true → u ≤ r.user_id) l
  All-none x u [] h = tt
  All-none x u (r ∷ l) (h, hs) = (λ hit. absurd (grind (arith, hit, h)), All-none x u l hs)

  hit-IsFound :
      (x : String) (r : AuthDevice) (l : List AuthDevice) (o : Option ℕ)
      → str_eq (py.sql_lower r.device_id) x ≡ true
      → IsFound x l o
      → IsFound x (r ∷ l) (some (least r.user_id o))
  hit-IsFound x r l none hit h = record {
    device = r;
    among = inl refl;
    bears = (hit, refl);
    least = (λ _. omega arith, All-none x r.user_id l h);
  }
  hit-IsFound x r l (some u) hit h = elim (Bool-cases (leb r.user_id u)) [
    | inl first ↦ record {
      device = r;
      among = inl refl;
      bears = (hit, ground (arith, first));
      least = (λ _. omega arith, All-below x u (min r.user_id u) l (omega arith) h.least);
    }
    | inr later ↦ record {
      device = h.device;
      among = inr h.among;
      bears = (h.bears.0, h.bears.1 ∙ ground (arith, later));
      least = (λ _. omega arith, All-below x u (min r.user_id u) l (omega arith) h.least);
    }
  ]

  device_user-IsFound : (x : String) (l : List AuthDevice) → IsFound x l (device_user x l)
  unfolding device_user
  device_user-IsFound x [] = tt
  device_user-IsFound x (r ∷ l) = elim (Bool-cases (str_eq (py.sql_lower r.device_id) x)) [
    | inl hit ↦ rw hit (hit-IsFound x r l (device_user x l) hit (device_user-IsFound x l))
    | inr miss ↦ rw miss (missed-IsFound x r l (device_user x l) miss (device_user-IsFound x l))
  ]

  -- What an answer says of the name that was sent, without its outer white space.
  abbrev pub IsAnswer : String → AuthDb → Option (ℕ × ResolvedVia) → Type 0
  IsAnswer candidate db none =
      (str_eq candidate "" ≡ true)
      ⊎ ((existing db.users (py.uuid candidate) ≡ none)
          × IsFound (py.lower candidate) db.devices none)
  IsAnswer candidate db (some (u, user_id)) =
      (py.uuid candidate ≡ some u) × (has_user u db.users ≡ true)
  IsAnswer candidate db (some (u, device_id)) =
      (existing db.users (py.uuid candidate) ≡ none) × IsLeast (py.lower candidate) db.devices u

  existing-has_user :
      (users : List ℕ) (o : Option ℕ) (u : ℕ)
      → existing users o ≡ some u
      → (o ≡ some u) × (has_user u users ≡ true)
  existing-has_user users none u e = absurd (cc)
  existing-has_user users (some v) u e = elim (Bool-cases (has_user v users)) [
    | inl there ↦
        let same : v ≡ u = some_inj (rw there at e) in
        (ap some same, ap (λ w. has_user w users) (sym same) ∙ there)
    | inr gone ↦ absurd (grind (arith, gone, e))
  ]

  device-IsAnswer :
      (candidate : String) (db : AuthDb) (o : Option ℕ)
      → existing db.users (py.uuid candidate) ≡ none
      → IsFound (py.lower candidate) db.devices o
      → IsAnswer candidate db (via_device o)
  device-IsAnswer candidate db none e h = inr (e, h)
  device-IsAnswer candidate db (some u) e h = (e, h)

  -- A name that is the UUID of a user, in the sense of the parser, means that user. Any other name that
  -- is not blank means the least user that has a device whose name PostgreSQL lowers to what Python
  -- lowers this name to, and nobody if there is none: no user is made up, and the order of the rows
  -- does not matter.
  pub resolve_user-IsAnswer :
      (x : String) (db : AuthDb) → IsAnswer (py.strip x) db (resolve_user x db)
  unfolding resolve_user
  resolve_user-IsAnswer x db =
      let candidate = py.strip x in
      elim (Bool-cases (str_eq candidate "")) [
        | inl blank ↦ rw blank (inl blank)
        | inr filled ↦ elim (Option-cases (existing db.users (py.uuid candidate))) [
          | inl other ↦ rw filled (
              rw (other, resolve_user)
                (device-IsAnswer candidate db (device_user (py.lower candidate) db.devices) other
                  (device_user-IsFound (py.lower candidate) db.devices)))
          | inr (u, here) ↦
              rw filled
                (rw (here, resolve_user) (existing-has_user db.users (py.uuid candidate) u here))
        ]
      ]
