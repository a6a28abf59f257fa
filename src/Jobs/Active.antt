-- ===== src/Jobs/Active.antt =====
-- The constraints of `domain_jobs` under every interleaving of the functions of
-- src/app/domain/jobs.py with the workers of src/app/domain/worker.py.
use ai_text.Prelude.{
  ℕ, ◌+◌, ◌≤◌, ◌≡◌, Bool, true, false, ◌&&◌, Option, none, some, List, [], ◌∷◌, arith, Option-cases,
  Bool-cases, inl, inr, refl, sym, subst,
}
use ai_text.Database.{Uuids}
use ai_text.Jobs
use ai_text.Jobs.{
  Job, JobKind, JobStatus, Queue, ClaimedJob, Dispatched, is_active, is_of, is_queued, cancel_row,
  is_due, find_job, update_job, count_active, claim_picked, requeue_row, cancel_rows, pick, leased,
  closed, requeued, backoff_seconds, is_last, kind_number, retry_or_fail,
}
use ai_text.Jobs.Rows.{
  IsJobTable, count_id, active_at, count_id-append, count_active-append, count_id-find_none,
  count_id-update_job, count_active-update_job, update_job-missing, pick-IsPicked,
}

-- One committed transaction, of any session. A worker settles any job that some claim returned,
-- also one whose lease it has lost; an id that is drawn is new; the clock goes on.
pub data Step (ids : Uuids) : Queue → Queue → Type 0 where
  enqueue :
      (kind : JobKind) (ref_id : ℕ) (user_id : Option ℕ) (delay : ℕ) (q : Queue)
      → find_job (ids.gen q.drawn) q.jobs ≡ none
      → Step ids q (Jobs.enqueue ids kind ref_id user_id delay q).1
  claim : (lease : ℕ) (locked : ℕ → Bool) (q : Queue) → Step ids q (Jobs.claim lease locked q).1
  process :
      (max_attempts : ℕ) (job : ClaimedJob) (d : Dispatched) (q : Queue)
      → Step ids q (Jobs.process max_attempts job d q).1
  cancel_queued :
      (kind : JobKind) (ref_id : ℕ) (q : Queue) → Step ids q (Jobs.cancel_queued kind ref_id q)
  tick : (seconds : ℕ) (q : Queue) → Step ids q (record q { now = q.now + seconds })

pub data Reach (ids : Uuids) (q : Queue) : Queue → Type 0 where
  start : Reach ids q q
  step : {a b : Queue} → Reach ids q a → Step ids a b → Reach ids q b

-- A change of one row that adds no active row.
update_job-IsJobTable :
    (id : ℕ) (f : Job → Job) (l : List Job) (j : Job)
    → ((j : Job) → (f j).id ≡ j.id)
    → find_job id l ≡ some j
    → ((kind : JobKind) (ref_id : ℕ) → active_at kind ref_id (f j) ≤ active_at kind ref_id j)
    → IsJobTable l
    → IsJobTable (update_job id f l)
update_job-IsJobTable id f l j same found fewer h = record {
  unique = λ other. omega (arith, count_id-update_job id other f l same, h.unique other);
  one_active = λ kind ref_id. omega (
    arith,
    count_active-update_job id f kind ref_id l j found,
    fewer kind ref_id,
    h.one_active kind ref_id,
  );
}

close-IsJobTable :
    (status : JobStatus) (id : ℕ) (l : List Job)
    → is_active status ≡ false
    → IsJobTable l
    → IsJobTable (update_job id (closed status) l)
close-IsJobTable status id l inactive h = elim (Option-cases (find_job id l)) [
  | inl missing ↦ subst IsJobTable (sym (update_job-missing id (closed status) l missing)) h
  | inr (j, found) ↦
      update_job-IsJobTable id (closed status) l j (λ _. refl) found (λ kind ref_id. grind arith) h
]

pub claim_picked-IsJobTable :
    (lease : ℕ) (locked : ℕ → Bool) (q : Queue) (o : Option Job)
    → pick locked q.now q.jobs ≡ o
    → IsJobTable q.jobs
    → IsJobTable (claim_picked lease q o).1.jobs
unfolding claim_picked
claim_picked-IsJobTable lease locked q none picked h = h
claim_picked-IsJobTable lease locked q (some j) picked h =
    let p = pick-IsPicked locked q.now q.jobs j h.unique picked in
    update_job-IsJobTable j.id (leased (q.now + lease)) q.jobs j (λ _. refl) p.found
      (λ kind ref_id. grind (arith, p.due)) h

requeue_row-one_active :
    (id run_after : ℕ) (q : Queue) (j : Job)
    → find_job id q.jobs ≡ some j
    → count_active j.kind j.ref_id (update_job id (requeued run_after) q.jobs) ≤ 1
    → IsJobTable q.jobs
    → IsJobTable (update_job id (requeued run_after) q.jobs)
requeue_row-one_active id run_after q j found room h = record {
  unique = λ other.
      omega (
        arith,
        count_id-update_job id other (requeued run_after) q.jobs (λ _. refl),
        h.unique other,
      );
  one_active = λ kind ref_id. grind (
    arith,
    count_active-update_job id (requeued run_after) kind ref_id q.jobs j found,
    count_active-update_job id (requeued run_after) j.kind j.ref_id q.jobs j found,
    h.one_active kind ref_id,
  );
}

requeue_row-IsJobTable :
    (id run_after : ℕ) (q : Queue) (o : Option Job)
    → find_job id q.jobs ≡ o
    → IsJobTable q.jobs
    → IsJobTable (requeue_row id run_after q o).1.jobs
unfolding requeue_row
requeue_row-IsJobTable id run_after q none found h = h
requeue_row-IsJobTable id run_after q (some j) found h =
    grind (arith, requeue_row-one_active id run_after q j found)

retry_or_fail-IsJobTable :
    (job : ClaimedJob) (last : Bool) (q : Queue)
    → IsJobTable q.jobs
    → IsJobTable (retry_or_fail job last q).1.jobs
unfolding retry_or_fail Jobs.fail Jobs.retry_later
retry_or_fail-IsJobTable job true q h = close-IsJobTable JobStatus.failed job.id q.jobs refl h
retry_or_fail-IsJobTable job false q h =
    requeue_row-IsJobTable job.id (q.now + backoff_seconds job.attempts) q (find_job job.id q.jobs)
      refl h

process-IsJobTable :
    (max_attempts : ℕ) (job : ClaimedJob) (d : Dispatched) (q : Queue)
    → IsJobTable q.jobs
    → IsJobTable (Jobs.process max_attempts job d q).1.jobs
unfolding Jobs.process Jobs.finish
process-IsJobTable max_attempts job Dispatched.returned q h =
    close-IsJobTable JobStatus.done job.id q.jobs refl h
process-IsJobTable max_attempts job Dispatched.raised q h =
    retry_or_fail-IsJobTable job (is_last max_attempts job) q h

cancel_row-id : (kind : JobKind) (ref_id : ℕ) (j : Job) → (cancel_row kind ref_id j).id ≡ j.id
unfolding cancel_row
cancel_row-id kind ref_id j = ground arith

count_id-cancel_rows :
    (kind : JobKind) (ref_id id : ℕ) (l : List Job)
    → count_id id (cancel_rows kind ref_id l) ≡ count_id id l
unfolding count_id cancel_rows
count_id-cancel_rows kind ref_id id [] = refl
count_id-cancel_rows kind ref_id id (j ∷ l) =
    grind (arith, cancel_row-id kind ref_id j, count_id-cancel_rows kind ref_id id l)

active_at-cancel_row :
    (kind other : JobKind) (ref_id other_ref : ℕ) (j : Job)
    → active_at other other_ref (cancel_row kind ref_id j) ≤ active_at other other_ref j
unfolding cancel_row
active_at-cancel_row kind other ref_id other_ref j =
    elim (Bool-cases (is_of kind ref_id j && is_queued j.status)) [
      | inl hit ↦ rw hit (grind arith)
      | inr miss ↦ rw miss (omega arith)
    ]

count_active-cancel_rows :
    (kind other : JobKind) (ref_id other_ref : ℕ) (l : List Job)
    → count_active other other_ref (cancel_rows kind ref_id l) ≤ count_active other other_ref l
unfolding count_active cancel_rows
count_active-cancel_rows kind other ref_id other_ref [] = ground arith
count_active-cancel_rows kind other ref_id other_ref (j ∷ l) = omega (
  arith,
  active_at-cancel_row kind other ref_id other_ref j,
  count_active-cancel_rows kind other ref_id other_ref l,
)

enqueue-IsJobTable :
    (ids : Uuids) (kind : JobKind) (ref_id : ℕ) (user_id : Option ℕ) (delay : ℕ) (q : Queue)
    → find_job (ids.gen q.drawn) q.jobs ≡ none
    → IsJobTable q.jobs
    → IsJobTable (Jobs.enqueue ids kind ref_id user_id delay q).1.jobs
unfolding Jobs.enqueue
enqueue-IsJobTable ids kind ref_id user_id delay q new h = record {
  unique = λ id.
      grind (arith, count_id-append, h.unique id, count_id-find_none (ids.gen q.drawn) q.jobs new);
  one_active = λ k r. grind (arith, count_active-append, h.one_active k r);
}

pub Step-IsJobTable :
    {ids : Uuids} {a b : Queue} → Step ids a b → IsJobTable a.jobs → IsJobTable b.jobs
unfolding Jobs.claim Jobs.cancel_queued
Step-IsJobTable (Step.enqueue kind ref_id user_id delay q new) h =
    enqueue-IsJobTable _ kind ref_id user_id delay q new h
Step-IsJobTable (Step.claim lease locked q) h =
    claim_picked-IsJobTable lease locked q (pick locked q.now q.jobs) refl h
Step-IsJobTable (Step.process max_attempts job d q) h = process-IsJobTable max_attempts job d q h
Step-IsJobTable (Step.cancel_queued kind ref_id q) h = record {
  unique = λ id. omega (arith, count_id-cancel_rows kind ref_id id q.jobs, h.unique id);
  one_active =
      λ k r. omega (arith, count_active-cancel_rows kind k ref_id r q.jobs, h.one_active k r);
}
Step-IsJobTable (Step.tick seconds q) h = h

-- From a table with unique ids and at most one active job for each kind and reference, whatever
-- sessions and workers do in any order, also workers that have lost their lease, leads to such a
-- table.
pub Reach-IsJobTable :
    {ids : Uuids} {a b : Queue} → IsJobTable a.jobs → Reach ids a b → IsJobTable b.jobs
Reach-IsJobTable h Reach.start = h
Reach-IsJobTable h (Reach.step r s) = Step-IsJobTable s (Reach-IsJobTable h r)
