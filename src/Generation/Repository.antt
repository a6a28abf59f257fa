-- ===== src/Generation/Repository.antt =====
-- src/app/generation/repository.py: the statements on `generations`, and the trial flag of `users`.
-- The listings and statistics for the client are not modelled, nor are the columns `stop_reason`,
-- `latency_ms` and the cached tokens.
use ai_text.Prelude.{
  ℕ, suc, ◌+◌, String, Bool, true, false, not, ◌&&◌, ◌||◌, Option, none, some, List, [], ◌∷◌, ◌++◌,
  ◌==◌, str_eq, if◌then◌else◌, lookup, insert,
}
use ai_text.Database.{Uuids, Payload, Db, Generation, GenerationStatus, BillingKind}
use ai_text.Action.{ok, err, integrity_error, Action, modify}

pub record Usage : Type 0 where
  pub model : String
  pub input_tokens : ℕ
  pub output_tokens : ℕ
  pub units : ℕ
  pub unit_kind : String

abbrev pub is_inflight : GenerationStatus → Bool
is_inflight GenerationStatus.pending = true
is_inflight GenerationStatus.running = true
is_inflight _ = false

unfoldable pub count_rows : ℕ → List Generation → ℕ
count_rows user_id [] = 0
count_rows user_id (g ∷ l) =
    (if g.user_id == user_id && is_inflight g.status then 1 else 0) + count_rows user_id l

unfoldable pub count_inflight : ℕ → Db → ℕ
unfolding count_rows
count_inflight user_id db = count_rows user_id db.generations

-- The row that `UNIQUE (user_id, idempotency_key)` points at.
unfoldable pub find_generation : ℕ → String → List Generation → Option Generation
find_generation user_id key [] = none
find_generation user_id key (g ∷ l) =
    if g.user_id == user_id && str_eq g.idempotency_key key
    then some g
    else find_generation user_id key l

unfoldable pub get_by_key : ℕ → String → Db → Option Generation
get_by_key user_id key db = find_generation user_id key db.generations

-- `INSERT INTO generations … ON CONFLICT (user_id, idempotency_key) DO NOTHING RETURNING id`
unfoldable pub anchor : Uuids → ℕ → String → String → Option String → String → Action (Option ℕ)
anchor ids user_id kind provider model key db = elim (find_generation user_id key db.generations) [
  | some _ ↦ (ok none, db)
  | none ↦ (
    ok (some (ids.gen db.drawn)),
    record db {
      generations =
          db.generations
          ++ record {
            id = ids.gen db.drawn;
            user_id = user_id;
            kind = kind;
            provider = provider;
            model = model;
            status = GenerationStatus.running;
            input_tokens = 0;
            output_tokens = 0;
            units = 0;
            unit_kind = "call";
            credits_charged = 0;
            billing_kind = BillingKind.none;
            ledger_tx_id = none;
            attempt = 1;
            idempotency_key = key;
            provider_ref = none;
            error_code = none;
            meta = [];
            completed_at = none;
          }
            ∷ [];
      drawn = suc db.drawn;
    },
  )
]

-- `UPDATE generations SET … WHERE id = :gid`
unfoldable pub update_generation : ℕ → (Generation → Generation) → List Generation → List Generation
update_generation gid f [] = []
update_generation gid f (g ∷ l) = (if g.id == gid then f g else g) ∷ update_generation gid f l

unfoldable pub retry : ℕ → Action (Unit {0})
retry gid = modify λ db. record db {
  generations =
      update_generation gid
        (λ g. record g {
          status = GenerationStatus.running;
          attempt = g.attempt + 1;
          error_code = none;
          completed_at = none;
        })
        db.generations;
}

unfoldable pub fail : ℕ → String → Action (Unit {0})
fail gid code = modify λ db. record db {
  generations =
      update_generation gid
        (λ g. record g {
          status = GenerationStatus.failed;
          error_code = some code;
          completed_at = some db.now;
        })
        db.generations;
}

pub record Completion : Type 0 where
  pub usage : Usage
  pub credits_charged : ℕ
  pub billing_kind : BillingKind
  pub ledger_tx_id : Option ℕ
  pub provider_ref : Option String
  pub meta : Payload

abbrev pub coalesce : Option String → String → Option String
coalesce none s = some s
coalesce (some m) s = some m

-- The provider of a row, by primary key.
unfoldable pub provider_of : ℕ → List Generation → Option String
provider_of gid [] = none
provider_of gid (g ∷ l) = if g.id == gid then some g.provider else provider_of gid l

abbrev is_text : String → Option String → Bool
is_text s none = false
is_text s (some t) = str_eq t s

-- Another row has this provider and this reference.
unfoldable pub holds_ref : ℕ → String → String → List Generation → Bool
holds_ref gid provider ref [] = false
holds_ref gid provider ref (g ∷ l) =
    (not (g.id == gid) && (str_eq g.provider provider && is_text ref g.provider_ref))
    || holds_ref gid provider ref l

abbrev provider_holds : ℕ → String → Option String → List Generation → Bool
provider_holds gid ref none rows = false
provider_holds gid ref (some provider) rows = holds_ref gid provider ref rows

-- With this reference, the row would break the partial unique index `ux_generations_provider_ref`.
unfoldable pub clashes : ℕ → Option String → List Generation → Bool
unfolding provider_of holds_ref
clashes gid none rows = false
clashes gid (some ref) rows = provider_holds gid ref (provider_of gid rows) rows

unfoldable pub finalize : ℕ → Completion → Action (Unit {0})
finalize gid c db =
    if clashes gid c.provider_ref db.generations then (err integrity_error, db) else (
      ok tt,
      record db {
        generations =
            update_generation gid
              (λ g. record g {
                status = GenerationStatus.succeeded;
                input_tokens = c.usage.input_tokens;
                output_tokens = c.usage.output_tokens;
                units = c.usage.units;
                unit_kind = c.usage.unit_kind;
                model = coalesce g.model c.usage.model;
                credits_charged = c.credits_charged;
                billing_kind = c.billing_kind;
                ledger_tx_id = c.ledger_tx_id;
                provider_ref = c.provider_ref;
                meta = c.meta;
                completed_at = some db.now;
              })
              db.generations;
      },
    )

abbrev flipped : ℕ → Option Bool → Db → Db
flipped user_id (some false) db = record db { users = insert user_id true db.users }
flipped user_id _ db = db

abbrev is_unused : Option Bool → Bool
is_unused (some false) = true
is_unused _ = false

-- `UPDATE users SET trial_used = TRUE WHERE id = :uid AND trial_used = FALSE`, and its row count.
unfoldable pub flip_trial : ℕ → Action Bool
flip_trial user_id db =
    (ok (is_unused (lookup user_id db.users)), flipped user_id (lookup user_id db.users) db)
