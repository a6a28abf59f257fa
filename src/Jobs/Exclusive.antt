-- ===== src/Jobs/Exclusive.antt =====
-- What becomes of a claim of src/app/domain/jobs.py while other workers and sessions go on.
use ai_text.Prelude.{
  ℕ, ◌+◌, ◌≤◌, ◌≡◌, ◌≢◌, refl, Bool, true, false, ◌&&◌, Bool-cases, inl, inr, Option, none, some,
  List, [], ◌∷◌, ◌++◌, arith, All,
}
use ai_text.Database.{Uuids}
use ai_text.Jobs
use ai_text.Jobs.{
  Job, JobKind, JobStatus, Queue, ClaimedJob, Dispatched, is_of, is_queued, update_job, find_job,
  pick, claim_picked, leased, closed, requeued, requeue_row, retry_or_fail, is_last, cancel_row,
  cancel_rows, backoff_seconds,
}
use ai_text.Jobs.Rows.{IsJobTable, pick-IsPicked}
use ai_text.Jobs.Active.{Step, Step-IsJobTable, claim_picked-IsJobTable}
use ai_text.Jobs.Lease.{IsLeased, claim_picked-IsLeased}

-- A step that does not settle this job, and does not draw its id for a new one.
abbrev pub Spares : {ids : Uuids} {a b : Queue} → ℕ → Step ids a b → Type 0
Spares {ids = ids} id (Step.enqueue kind ref_id user_id delay q new) = ids.gen q.drawn ≢ id
Spares id (Step.claim lease locked q) = Unit
Spares id (Step.process max_attempts job d q) = job.id ≢ id
Spares id (Step.cancel_queued kind ref_id q) = Unit
Spares id (Step.tick seconds q) = Unit

-- What other workers and sessions do while one worker has a job: anything but to settle it.
pub data Meanwhile (ids : Uuids) (id : ℕ) (q : Queue) : Queue → Type 0 where
  start : Meanwhile ids id q q
  step :
      {a b : Queue} → Meanwhile ids id q a → (s : Step ids a b) → Spares id s → Meanwhile ids id q b

found-IsLeased :
    (id until i : ℕ) (l : List Job) (j : Job)
    → All (IsLeased id until) l
    → find_job i l ≡ some j
    → IsLeased id until j
unfolding find_job
found-IsLeased id until i [] j h e = absurd (grind (arith, e))
found-IsLeased id until i (x ∷ l) j h e = grind (arith, found-IsLeased id until i l j h.1)

other-IsLeased :
    (id until i : ℕ) (f : Job → Job) (l : List Job)
    → ((j : Job) → (f j).id ≡ j.id)
    → i ≢ id
    → All (IsLeased id until) l
    → All (IsLeased id until) (update_job i f l)
unfolding update_job
other-IsLeased id until i f [] same differ h = tt
other-IsLeased id until i f (x ∷ l) same differ h =
    grind (arith, same x, h.0, other-IsLeased id until i f l same differ h.1)

append-IsLeased :
    (id until : ℕ) (l : List Job) (j : Job)
    → j.id ≢ id
    → All (IsLeased id until) l
    → All (IsLeased id until) (l ++ j ∷ [])
append-IsLeased id until [] j differ h = (λ same. absurd (differ same), tt)
append-IsLeased id until (x ∷ l) j differ h = (h.0, append-IsLeased id until l j differ h.1)

picked_is_other :
    (locked : ℕ → Bool) (id until : ℕ) (q : Queue) (j : Job)
    → IsJobTable q.jobs
    → All (IsLeased id until) q.jobs
    → q.now ≤ until
    → pick locked q.now q.jobs ≡ some j
    → j.id ≢ id
picked_is_other locked id until q j table h early picked same =
    let p = pick-IsPicked locked q.now q.jobs j table.unique picked in
    let held = found-IsLeased id until j.id q.jobs j h p.found same in
    grind (arith, held.0, held.1, p.due)

claim_picked-other :
    (lease : ℕ) (locked : ℕ → Bool) (id until : ℕ) (q : Queue) (o : Option Job)
    → IsJobTable q.jobs
    → All (IsLeased id until) q.jobs
    → q.now ≤ until
    → pick locked q.now q.jobs ≡ o
    → All (IsLeased id until) (claim_picked lease q o).1.jobs
unfolding claim_picked
claim_picked-other lease locked id until q none table h early picked = h
claim_picked-other lease locked id until q (some j) table h early picked =
    other-IsLeased id until j.id (leased (q.now + lease)) q.jobs (λ _. refl)
      (picked_is_other locked id until q j table h early picked) h

claimed_is_other :
    (lease : ℕ) (locked : ℕ → Bool) (id until : ℕ) (q : Queue) (o : Option Job) (d : ClaimedJob)
    → IsJobTable q.jobs
    → All (IsLeased id until) q.jobs
    → q.now ≤ until
    → pick locked q.now q.jobs ≡ o
    → (claim_picked lease q o).0 ≡ some d
    → d.id ≢ id
unfolding claim_picked
claimed_is_other lease locked id until q none d table h early picked made = absurd (cc)
claimed_is_other lease locked id until q (some j) d table h early picked made =
    grind (arith, made, picked_is_other locked id until q j table h early picked)

requeue_row-other :
    (id until i run_after : ℕ) (q : Queue) (o : Option Job)
    → i ≢ id
    → All (IsLeased id until) q.jobs
    → All (IsLeased id until) (requeue_row i run_after q o).1.jobs
unfolding requeue_row
requeue_row-other id until i run_after q none differ h = h
requeue_row-other id until i run_after q (some j) differ h =
    grind (arith, other-IsLeased id until i (requeued run_after) q.jobs (λ _. refl) differ h)

process-other :
    (id until max_attempts : ℕ) (job : ClaimedJob) (d : Dispatched) (q : Queue)
    → job.id ≢ id
    → All (IsLeased id until) q.jobs
    → All (IsLeased id until) (Jobs.process max_attempts job d q).1.jobs
unfolding Jobs.process Jobs.finish retry_or_fail Jobs.fail Jobs.retry_later
process-other id until max_attempts job Dispatched.returned q differ h =
    other-IsLeased id until job.id (closed JobStatus.done) q.jobs (λ _. refl) differ h
process-other id until max_attempts job Dispatched.raised q differ h =
    by_attempts (is_last max_attempts job)
  where
    by_attempts : (last : Bool) → All (IsLeased id until) (retry_or_fail job last q).1.jobs
    by_attempts true =
        other-IsLeased id until job.id (closed JobStatus.failed) q.jobs (λ _. refl) differ h
    by_attempts false =
        requeue_row-other id until job.id (q.now + backoff_seconds job.attempts) q
          (find_job job.id q.jobs) differ h

cancel_row-IsLeased :
    (id until : ℕ) (kind : JobKind) (ref_id : ℕ) (j : Job)
    → IsLeased id until j
    → IsLeased id until (cancel_row kind ref_id j)
unfolding cancel_row
cancel_row-IsLeased id until kind ref_id j h =
    elim (Bool-cases (is_of kind ref_id j && is_queued j.status)) [
      | inl hit ↦ rw hit (λ same. grind (arith, h same, hit))
      | inr miss ↦ rw miss h
    ]

cancel_rows-IsLeased :
    (id until : ℕ) (kind : JobKind) (ref_id : ℕ) (l : List Job)
    → All (IsLeased id until) l
    → All (IsLeased id until) (cancel_rows kind ref_id l)
unfolding cancel_rows
cancel_rows-IsLeased id until kind ref_id [] h = tt
cancel_rows-IsLeased id until kind ref_id (j ∷ l) h = (
  cancel_row-IsLeased id until kind ref_id j h.0,
  cancel_rows-IsLeased id until kind ref_id l h.1,
)

Step-IsLeased :
    {ids : Uuids} {a b : Queue} (id until : ℕ) (s : Step ids a b)
    → Spares id s
    → IsJobTable a.jobs
    → a.now ≤ until
    → All (IsLeased id until) a.jobs
    → All (IsLeased id until) b.jobs
unfolding Jobs.enqueue Jobs.claim Jobs.cancel_queued
Step-IsLeased id until (Step.enqueue kind ref_id user_id delay q new) differ table early h =
    grind (arith, append-IsLeased id until q.jobs _ differ h)
Step-IsLeased id until (Step.claim lease locked q) _ table early h =
    claim_picked-other lease locked id until q (pick locked q.now q.jobs) table h early refl
Step-IsLeased id until (Step.process max_attempts job d q) differ table early h =
    process-other id until max_attempts job d q differ h
Step-IsLeased id until (Step.cancel_queued kind ref_id q) _ table early h =
    cancel_rows-IsLeased id until kind ref_id q.jobs h
Step-IsLeased id until (Step.tick seconds q) _ table early h = h

process_now :
    (max_attempts : ℕ) (job : ClaimedJob) (d : Dispatched) (q : Queue)
    → (Jobs.process max_attempts job d q).1.now ≡ q.now
unfolding Jobs.process Jobs.finish retry_or_fail Jobs.fail Jobs.retry_later requeue_row
process_now max_attempts job d q = grind arith

claim_now : (lease : ℕ) (q : Queue) (o : Option Job) → (claim_picked lease q o).1.now ≡ q.now
unfolding claim_picked
claim_now lease q none = refl
claim_now lease q (some j) = refl

-- The clock does not go back.
Step_now : {ids : Uuids} {a b : Queue} → Step ids a b → a.now ≤ b.now
unfolding Jobs.enqueue Jobs.claim Jobs.cancel_queued
Step_now (Step.enqueue kind ref_id user_id delay q new) = grind arith
Step_now (Step.claim lease locked q) = omega (arith, claim_now lease q (pick locked q.now q.jobs))
Step_now (Step.process max_attempts job d q) = omega (arith, process_now max_attempts job d q)
Step_now (Step.cancel_queued kind ref_id q) = omega arith
Step_now (Step.tick seconds q) = omega arith

Meanwhile-IsLeased :
    {ids : Uuids} (id until : ℕ) {q a : Queue}
    → IsJobTable q.jobs
    → All (IsLeased id until) q.jobs
    → Meanwhile ids id q a
    → a.now ≤ until
    → IsJobTable a.jobs × All (IsLeased id until) a.jobs
Meanwhile-IsLeased id until table h Meanwhile.start early = (table, h)
Meanwhile-IsLeased id until table h (Meanwhile.step m s spares) early =
    let (table', h') = Meanwhile-IsLeased id until table h m (omega (arith, early, Step_now s)) in
    (
      Step-IsJobTable s table',
      Step-IsLeased id until s spares table' (omega (arith, early, Step_now s)) h',
    )

-- In a table that meets its constraints: after a job has been claimed, no worker claims it before its
-- lease has run out, whatever claims, new jobs under other ids, cancellations and settlements of
-- other jobs come between, as long as no worker settles this job meanwhile.
pub claims-exclusive :
    {ids : Uuids} (lease lease' : ℕ) (locked locked' : ℕ → Bool) (q a : Queue) (c d : ClaimedJob)
    → IsJobTable q.jobs
    → (Jobs.claim lease locked q).0 ≡ some c
    → Meanwhile ids c.id (Jobs.claim lease locked q).1 a
    → a.now ≤ q.now + lease
    → (Jobs.claim lease' locked' a).0 ≡ some d
    → d.id ≢ c.id
unfolding Jobs.claim
claims-exclusive lease lease' locked locked' q a c d table made meanwhile early again =
    let until = q.now + lease in
    let o = pick locked q.now q.jobs in
    let (table', held) =
      Meanwhile-IsLeased c.id until (claim_picked-IsJobTable lease locked q o refl table)
        (claim_picked-IsLeased lease q o c table made) meanwhile early in
    claimed_is_other lease' locked' c.id until a (pick locked' a.now a.jobs) d table' held early
      refl again
