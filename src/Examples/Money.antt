-- ===== src/Examples/Money.antt =====
-- The theorems about src/app/wallet/service.py at concrete inputs.
use ai_text.Prelude.{◌≡◌, refl, true, false, none, some, [], arith}
use ai_text.Database.{Db}
use ai_text.Action.{ok, transaction}
use ai_text.Wallet.{balance, find_tx, consume, grant}
use ai_text.Wallet.Calls.{run_calls}
use ai_text.Wallet.Ledger.{total}
use ai_text.Wallet.Journal.{IsJournal, run_calls-IsJournal}
use ai_text.Wallet.Outcome.{consume_outcome}
use ai_text.Wallet.Reconcile.{Reconciles, run_calls-Reconciles}
use ai_text.Wallet.Replay.{consume_again}
use ai_text.Examples.Data.{ids, empty, calls, refunded}

empty-Reconciles : Reconciles empty
unfolding balance total
empty-Reconciles = record { at = λ u. refl }

run_calls-Reconciles_example : Reconciles (run_calls ids calls empty)
run_calls-Reconciles_example = run_calls-Reconciles ids calls empty empty-Reconciles

run_calls-IsJournal_example : IsJournal (run_calls ids calls empty).ledger
run_calls-IsJournal_example =
    run_calls-IsJournal ids calls empty (record { unique = tt; positive = tt })

consume_outcome_example :
    (consume ids 7 3 "generation:a" "generation" [] none refunded).0
    ≡ ok (record { replay = false; tx_id = 2; balance = 2 })
unfolding find_tx balance
consume_outcome_example =
    consume_outcome ids 7 3 "generation:a" "generation" [] none refunded (omega arith)

first_debit :
    (consume ids 7 3 "generation:c" "generation" [] none refunded).0
    ≡ ok (record { replay = false; tx_id = 2; balance = 2 })
unfolding consume
first_debit = refl

abbrev after_debit : Db
after_debit =
    run_calls ids calls
      (transaction (consume ids 7 3 "generation:c" "generation" [] none) refunded).1

consume_again_example :
    consume ids 7 3 "generation:c" "retry" [] (some 4) after_debit
    ≡ (ok (record { replay = true; tx_id = 2; balance = balance 7 after_debit }), after_debit)
consume_again_example =
    consume_again ids 7 3 "generation:c" "generation" "retry" [] [] none (some 4) calls refunded
      (record { replay = false; tx_id = 2; balance = 2 }) (omega arith) first_debit

first_credit :
    (grant ids 7 4 "admin-grant:2" "admin_grant" [] refunded).0
    ≡ ok (record { replay = false; tx_id = 2; balance = 9 })
unfolding grant
first_credit = refl

abbrev after_credit : Db
after_credit =
    run_calls ids calls (transaction (grant ids 7 4 "admin-grant:2" "admin_grant" []) refunded).1
