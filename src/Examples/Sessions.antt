-- ===== src/Examples/Sessions.antt =====
-- The theorems about src/app/auth/service.py and src/app/billing_common/resolve.py at concrete inputs.
use ai_text.Prelude.{
  ℕ, ◌+◌, ◌≡◌, refl, inl, String, true, none, some, [], arith, ◌==◌, str_eq, if◌then◌else◌,
}
use ai_text.Auth.{
  AuthDb, AppleIdentity, Issuer, IssuedTokens, ok, err, unauthorized, find_device,
  register_or_token,
}
use ai_text.Auth.Apple.{sign_in_with_apple}
use ai_text.Auth.Refresh.{refresh}
use ai_text.Auth.Reach.{Reach}
use ai_text.Auth.Once.{refresh_once, refresh_reuse}
use ai_text.Auth.Identity.{apple_same_user}
use ai_text.Auth.Session.{sign_in_keeps_account}
use ai_text.Auth.Pair.{refresh_of_pair}
use ai_text.Auth.Resolve.{Texts, resolve_user, IsAnswer, resolve_user-IsAnswer}

abbrev issuer : Issuer
issuer = record {
  configured = true;
  access_token = λ u d now. "signed";
  access_ttl_seconds = 3600;
  refresh_ttl = 60;
  token_urlsafe = λ k. if k == 0 then "t0" else if k == 1 then "t1" else "t2";
  hash_refresh = λ t. t;
  ids = record { gen = λ k. 100 + k; text = λ u. "device" };
}

abbrev nobody : AuthDb
nobody = record {
  users = [];
  devices = [];
  identities = [];
  tokens = [];
  audit = [];
  drawn = 0;
  secrets = 0;
  now = 5;
}

abbrev alone : AuthDb → AuthDb
alone db = db

abbrev pair_for : ℕ → String → String → IssuedTokens
pair_for u d token = record {
  user_id = u;
  device_id = d;
  access_token = "signed";
  expires_in = 3600;
  refresh_token = token;
  refresh_expires_in = 60;
}

abbrev registered : AuthDb
registered = (register_or_token issuer alone (some "phone") nobody).1

-- Another device registers, and time goes on.
abbrev later_on : AuthDb
later_on = record (register_or_token issuer alone (some "tablet") registered).1 {
  now = registered.now + 7;
}

refresh_of_pair_example :
    (next : IssuedTokens) × ((refresh issuer alone "t0" later_on).0 ≡ ok next)
    × (next.user_id ≡ 100)
    × (next.device_id ≡ "phone")
unfolding register_or_token
refresh_of_pair_example =
    refresh_of_pair issuer alone (some "phone") nobody registered later_on
      (pair_for 100 "phone" "t0") _ refl
      (Reach.tick 7 (Reach.registered alone (some "tablet") (λ x. Reach.start) Reach.start)) refl
      refl refl (omega arith) refl refl

abbrev rotated : AuthDb
rotated = (refresh issuer alone "t0" registered).1

-- Two refreshes with one token, the second of which reads before the first writes.
refresh_once_example : (refresh issuer (λ db. rotated) "t0" registered).0 ≡ err unauthorized
unfolding refresh register_or_token
refresh_once_example =
    refresh_once issuer alone (λ db. rotated) "t0" registered registered rotated
      (pair_for 100 "phone" "t1") Reach.start refl Reach.start
      (Reach.refreshed alone "t0" (λ x. Reach.start) Reach.start) (refl, tt)

-- The first token again, and then the one that it was rotated to.
refresh_reuse_example :
    ((refresh issuer alone "t0" rotated).0 ≡ err unauthorized)
    × ((refresh issuer alone "t1" (refresh issuer alone "t0" rotated).1).0 ≡ err unauthorized)
unfolding refresh register_or_token
refresh_reuse_example =
    refresh_reuse issuer alone alone "t0" "t1" rotated (refresh issuer alone "t0" rotated).1
      (record {
        id = 101;
        user_id = 100;
        device_id = "phone";
        token_hash = "t0";
        expires_at = 65;
        used_at = some 5;
        revoked_at = none;
      })
      (record {
        id = 102;
        user_id = 100;
        device_id = "phone";
        token_hash = "t1";
        expires_at = 65;
        used_at = none;
        revoked_at = some 5;
      })
      refl Reach.start refl (inl refl) refl refl refl Reach.start

abbrev ann : AppleIdentity
ann = record { apple_sub = "ann"; email = none }

abbrev signed : AuthDb
signed = (sign_in_with_apple issuer alone (ok ann) (some "phone") registered).1

sign_in_keeps_account_example :
    ((pair_for 100 "phone" "t1").user_id ≡ 100) × ((pair_for 100 "phone" "t1").device_id ≡ "phone")
unfolding sign_in_with_apple register_or_token
sign_in_keeps_account_example =
    sign_in_keeps_account issuer alone ann "phone" 100 registered signed (pair_for 100 "phone" "t1")
      refl refl refl refl refl refl

abbrev on_pad : AuthDb
on_pad = (sign_in_with_apple issuer alone (ok ann) (some "pad") signed).1

apple_same_user_example :
    ((pair_for 100 "pad" "t2").user_id ≡ 100)
    × (find_device "phone" signed.devices ≡ some 100)
    × (find_device "pad" on_pad.devices ≡ some 100)
unfolding sign_in_with_apple register_or_token
apple_same_user_example =
    apple_same_user issuer alone alone ann ann (some "phone") (some "pad") registered signed signed
      on_pad (pair_for 100 "phone" "t1") (pair_for 100 "pad" "t2") (λ x. Reach.start)
      (λ x. Reach.start) refl Reach.start refl refl

-- A channel that sends the name of a device in capitals.
abbrev capitals : Texts
capitals = record {
  strip = λ x. x;
  lower = λ x. if str_eq x "PHONE" then "phone" else x;
  sql_lower = λ x. if str_eq x "PHONE" then "phone" else x;
  uuid = λ x. none;
}

resolve_user-IsAnswer_example :
    IsAnswer capitals "PHONE" registered (resolve_user capitals "PHONE" registered)
resolve_user-IsAnswer_example = resolve_user-IsAnswer capitals "PHONE" registered
