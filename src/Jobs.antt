-- ===== src/Jobs.antt =====
-- The queue of background jobs: src/app/domain/jobs.py over the table `domain_jobs` of
-- src/app/domain/models.py, and the failure policy of src/app/domain/worker.py. A function is one
-- committed transaction. The columns `last_error`, `created_at` and `updated_at` are not modelled;
-- times are whole seconds.
pub mod Rows
pub mod Active
pub mod Lease
pub mod Exclusive
pub mod Retry
use ai_text.Prelude.{
  ℕ, suc, ◌+◌, ◌-◌, ◌*◌, ◌^◌, min, Bool, true, false, not, ◌&&◌, ◌||◌, Option, none, some, List, [],
  ◌∷◌, ◌++◌, ltb, leb, ◌==◌, if◌then◌else◌,
}
use ai_text.Database.{Uuids}

pub data JobKind : Type 0 where
  ingest answer summary purge_topic purge_source : JobKind

pub data JobStatus : Type 0 where
  queued running done failed : JobStatus

pub record Job : Type 0 where
  pub id : ℕ
  pub kind : JobKind
  pub ref_id : ℕ
  pub user_id : Option ℕ
  pub status : JobStatus
  pub attempts : ℕ
  pub run_after : ℕ
  pub locked_until : Option ℕ

pub record Queue : Type 0 where
  pub jobs : List Job
  pub drawn : ℕ
  pub now : ℕ

pub record ClaimedJob : Type 0 where
  pub id : ℕ
  pub kind : JobKind
  pub ref_id : ℕ
  pub user_id : Option ℕ
  pub attempts : ℕ

abbrev pub kind_number : JobKind → ℕ
kind_number JobKind.ingest = 0
kind_number JobKind.answer = 1
kind_number JobKind.summary = 2
kind_number JobKind.purge_topic = 3
kind_number JobKind.purge_source = 4

-- `status IN ('queued', 'running')`
abbrev pub is_active : JobStatus → Bool
is_active JobStatus.queued = true
is_active JobStatus.running = true
is_active JobStatus.done = false
is_active JobStatus.failed = false

abbrev pub is_queued : JobStatus → Bool
is_queued JobStatus.queued = true
is_queued _ = false

abbrev pub is_of : JobKind → ℕ → Job → Bool
is_of kind ref_id j = kind_number j.kind == kind_number kind && j.ref_id == ref_id

-- The rows that the partial unique index `ux_domain_jobs_active` holds under one key.
unfoldable pub count_active : JobKind → ℕ → List Job → ℕ
count_active kind ref_id [] = 0
count_active kind ref_id (j ∷ l) =
    (if is_of kind ref_id j && is_active j.status then 1 else 0) + count_active kind ref_id l

-- `UPDATE domain_jobs SET … WHERE id = :id`, by primary key.
unfoldable pub update_job : ℕ → (Job → Job) → List Job → List Job
update_job id f [] = []
update_job id f (j ∷ l) = if j.id == id then f j ∷ l else j ∷ update_job id f l

unfoldable pub find_job : ℕ → List Job → Option Job
find_job id [] = none
find_job id (j ∷ l) = if j.id == id then some j else find_job id l

-- The queue is as before if the job has to be active already.
unfoldable pub enqueue : Uuids → JobKind → ℕ → Option ℕ → ℕ → Queue → Bool × Queue
unfolding count_active
enqueue ids kind ref_id user_id delay_seconds q =
    if count_active kind ref_id q.jobs == 0
    then (
      true,
      record q {
        jobs =
            q.jobs
            ++ record {
              id = ids.gen q.drawn;
              kind = kind;
              ref_id = ref_id;
              user_id = user_id;
              status = JobStatus.queued;
              attempts = 0;
              run_after = q.now + delay_seconds;
              locked_until = none;
            }
              ∷ [];
        drawn = suc q.drawn;
      },
    )
    else (false, q)

-- The condition of the inner SELECT of `claim`.
abbrev pub is_due : ℕ → Job → Bool
is_due now j = elim j.status [
  | JobStatus.queued ↦ leb j.run_after now
  | JobStatus.running ↦ elim j.locked_until [ none ↦ false | some t ↦ ltb t now ]
  | JobStatus.done ↦ false
  | JobStatus.failed ↦ false
]

abbrev pub earlier : Job → Option Job → Option Job
earlier j none = some j
earlier j (some k) = if leb j.run_after k.run_after then some j else some k

-- `ORDER BY run_after LIMIT 1 FOR UPDATE SKIP LOCKED`; `locked` says which rows other sessions hold.
unfoldable pub pick : (ℕ → Bool) → ℕ → List Job → Option Job
pick locked now [] = none
pick locked now (j ∷ l) =
    let rest = pick locked now l in
    if is_due now j && not (locked j.id) then earlier j rest else rest

abbrev pub leased : ℕ → Job → Job
leased locked_until j = record j {
  status = JobStatus.running;
  attempts = j.attempts + 1;
  locked_until = some locked_until;
}

abbrev pub claimed_of : Job → ClaimedJob
claimed_of j = record {
  id = j.id;
  kind = j.kind;
  ref_id = j.ref_id;
  user_id = j.user_id;
  attempts = j.attempts + 1;
}

unfoldable pub claim_picked : ℕ → Queue → Option Job → Option ClaimedJob × Queue
unfolding update_job
claim_picked lease_seconds q none = (none, q)
claim_picked lease_seconds q (some j) = (
  some (claimed_of j),
  record q { jobs = update_job j.id (leased (q.now + lease_seconds)) q.jobs },
)

unfoldable pub claim : ℕ → (ℕ → Bool) → Queue → Option ClaimedJob × Queue
unfolding pick claim_picked
claim lease_seconds locked q = claim_picked lease_seconds q (pick locked q.now q.jobs)

abbrev pub closed : JobStatus → Job → Job
closed status j = record j { status = status; locked_until = none }

unfoldable pub finish : ℕ → Queue → Queue
unfolding update_job
finish id q = record q { jobs = update_job id (closed JobStatus.done) q.jobs }

unfoldable pub fail : ℕ → Queue → Queue
unfolding update_job
fail id q = record q { jobs = update_job id (closed JobStatus.failed) q.jobs }

abbrev pub requeued : ℕ → Job → Job
requeued run_after j = record j {
  status = JobStatus.queued;
  locked_until = none;
  run_after = run_after;
}

-- `false`: the row would be the second active one under its key, the statement raises, and nothing
-- is written.
unfoldable pub requeue_row : ℕ → ℕ → Queue → Option Job → Bool × Queue
unfolding update_job count_active
requeue_row id run_after q none = (true, q)
requeue_row id run_after q (some j) =
    let jobs = update_job id (requeued run_after) q.jobs in
    if leb (count_active j.kind j.ref_id jobs) 1
    then (true, record q { jobs = jobs })
    else (false, q)

unfoldable pub retry_later : ℕ → ℕ → Queue → Bool × Queue
unfolding find_job requeue_row
retry_later id delay_seconds q = requeue_row id (q.now + delay_seconds) q (find_job id q.jobs)

unfoldable pub cancel_row : JobKind → ℕ → Job → Job
cancel_row kind ref_id j =
    if is_of kind ref_id j && is_queued j.status then record j { status = JobStatus.done } else j

unfoldable pub cancel_rows : JobKind → ℕ → List Job → List Job
unfolding cancel_row
cancel_rows kind ref_id [] = []
cancel_rows kind ref_id (j ∷ l) = cancel_row kind ref_id j ∷ cancel_rows kind ref_id l

unfoldable pub cancel_queued : JobKind → ℕ → Queue → Queue
unfolding cancel_rows
cancel_queued kind ref_id q = record q { jobs = cancel_rows kind ref_id q.jobs }

unfoldable pub backoff_seconds : ℕ → ℕ
backoff_seconds attempts = min (30 * 2 ^ (attempts - 1)) 900

-- What `_dispatch` did: it returned, or it raised, `RetryLater` and `RetryableIngestError` included.
pub data Dispatched : Type 0 where
  returned raised : Dispatched

unfoldable pub is_last : ℕ → ClaimedJob → Bool
is_last worker_max_attempts job = leb worker_max_attempts job.attempts

-- `_retry_or_fail` up to its commit; `_fail_entity` then writes the domain's own tables.
unfoldable pub retry_or_fail : ClaimedJob → Bool → Queue → Bool × Queue
unfolding retry_later backoff_seconds fail
retry_or_fail job false q = retry_later job.id (backoff_seconds job.attempts) q
retry_or_fail job true q = (true, fail job.id q)

-- `Worker._process`; the result is `false` if it raises.
unfoldable pub process : ℕ → ClaimedJob → Dispatched → Queue → Bool × Queue
unfolding finish retry_or_fail is_last
process worker_max_attempts job Dispatched.returned q = (true, finish job.id q)
process worker_max_attempts job Dispatched.raised q =
    retry_or_fail job (is_last worker_max_attempts job) q
