-- ===== src/Examples/Queue.antt =====
-- The statements of Jobs at concrete inputs.
use ai_text.Prelude.{
  ℕ, ◌+◌, ◌-◌, ◌*◌, ◌^◌, ◌≤◌, min, ◌≡◌, ◌≢◌, refl, Bool, true, false, none, some, List, [], ◌∷◌,
  arith,
}
use ai_text.Jobs.{
  Job, JobKind, JobStatus, Queue, ClaimedJob, Dispatched, count_active, find_job, claim, process,
}
use ai_text.Jobs.Rows.{IsJobTable, count_id}
use ai_text.Jobs.Active.{Step, Reach, Reach-IsJobTable}
use ai_text.Jobs.Lease.{IsFirstDue, claim-IsFirstDue}
use ai_text.Jobs.Exclusive.{Meanwhile, claims-exclusive}
use ai_text.Jobs.Retry.{settled_row, process-settled_row, process_revives_finished}
use ai_text.Examples.Data.{ids}

-- An ingest that a killed worker left, and an answer that is not due yet.
abbrev lost_ingest : Job
lost_ingest = record {
  id = 1;
  kind = JobKind.ingest;
  ref_id = 10;
  user_id = some 7;
  status = JobStatus.running;
  attempts = 1;
  run_after = 100;
  locked_until = some 400;
}

abbrev future_answer : Job
future_answer = record {
  id = 2;
  kind = JobKind.answer;
  ref_id = 20;
  user_id = some 7;
  status = JobStatus.queued;
  attempts = 0;
  run_after = 900;
  locked_until = none;
}

abbrev queue_of : List Job → Queue
queue_of jobs = record { jobs = jobs; drawn = 0; now = 500 }

abbrev two_jobs : Queue
two_jobs = queue_of (lost_ingest ∷ future_answer ∷ [])

nobody : ℕ → Bool
nobody _ = false

two_jobs-IsJobTable : IsJobTable two_jobs.jobs
unfolding count_id count_active
two_jobs-IsJobTable = record { unique = λ id. grind arith; one_active = λ kind ref_id. grind arith }

Reach-IsJobTable_example :
    IsJobTable
      (process 3
        (record { id = 1; kind = JobKind.ingest; ref_id = 10; user_id = some 7; attempts = 1 })
        Dispatched.raised
        (claim 300 nobody two_jobs).1).1.jobs
Reach-IsJobTable_example = Reach-IsJobTable {ids = ids} two_jobs-IsJobTable (
    Reach.step (Reach.step Reach.start (Step.claim 300 nobody two_jobs))
      (Step.process 3 _ Dispatched.raised _))

claim-IsFirstDue_example : IsFirstDue nobody two_jobs (claim 300 nobody two_jobs).0
claim-IsFirstDue_example = claim-IsFirstDue 300 nobody two_jobs two_jobs-IsJobTable

abbrev claimed_ingest : ClaimedJob
claimed_ingest = record {
  id = 1;
  kind = JobKind.ingest;
  ref_id = 10;
  user_id = some 7;
  attempts = 2;
}

ingest_is_claimed : (claim 300 nobody two_jobs).0 ≡ some claimed_ingest
unfolding claim nobody
ingest_is_claimed = refl

-- The lease of the ingest runs to 1000. At 900 the answer is due, and only the answer is claimed.
abbrev meanwhile_queue : Queue
meanwhile_queue = record (claim 500 nobody two_jobs).1 { now = 900 }

abbrev claimed_answer : ClaimedJob
claimed_answer = record {
  id = 2;
  kind = JobKind.answer;
  ref_id = 20;
  user_id = some 7;
  attempts = 1;
}

ingest_is_claimed_long : (claim 500 nobody two_jobs).0 ≡ some claimed_ingest
unfolding claim nobody
ingest_is_claimed_long = refl

answer_is_claimed : (claim 60 nobody meanwhile_queue).0 ≡ some claimed_answer
unfolding claim nobody
answer_is_claimed = refl

wait_400 : Meanwhile ids 1 (claim 500 nobody two_jobs).1 meanwhile_queue
unfolding claim nobody
wait_400 = Meanwhile.step Meanwhile.start (Step.tick 400 (claim 500 nobody two_jobs).1) tt

early_900 : meanwhile_queue.now ≤ 500 + 500
unfolding claim nobody
early_900 = omega arith

claims-exclusive_example : claimed_answer.id ≢ claimed_ingest.id
claims-exclusive_example =
    claims-exclusive {ids = ids} 500 60 nobody nobody two_jobs meanwhile_queue claimed_ingest
      claimed_answer two_jobs-IsJobTable ingest_is_claimed_long wait_400 early_900 answer_is_claimed

ingest_is_found : find_job 1 two_jobs.jobs ≡ some lost_ingest
unfolding find_job
ingest_is_found = refl

process-settled_row_example :
    ((process 3 claimed_ingest Dispatched.raised two_jobs).0 ≡ true)
    × (find_job 1 (process 3 claimed_ingest Dispatched.raised two_jobs).1.jobs
        ≡ some (settled_row 3 claimed_ingest Dispatched.raised 500 lost_ingest))
process-settled_row_example =
    process-settled_row 3 claimed_ingest Dispatched.raised two_jobs lost_ingest two_jobs-IsJobTable
      ingest_is_found refl

-- The worker whose lease ran out at 400; the other one claims at 500.
abbrev first_claim : ClaimedJob
first_claim = record claimed_ingest { attempts = 1 }

abbrev finished_queue : Queue
finished_queue = (process 3 claimed_ingest Dispatched.returned (claim 300 nobody two_jobs).1).1

process_revives_finished_example :
    (j j' : Job) × (find_job 1 finished_queue.jobs ≡ some j)
    × (j.status ≡ JobStatus.done)
    × (find_job 1 (process 3 first_claim Dispatched.raised finished_queue).1.jobs ≡ some j')
    × (j'.status ≡ JobStatus.queued)
    × (j'.run_after ≡ finished_queue.now + min (30 * 2 ^ (first_claim.attempts - 1)) 900)
process_revives_finished_example =
    process_revives_finished 3 300 nobody first_claim claimed_ingest two_jobs two_jobs-IsJobTable
      ingest_is_claimed refl (omega arith)
