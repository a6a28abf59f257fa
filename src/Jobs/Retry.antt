-- ===== src/Jobs/Retry.antt =====
-- The failure policy of src/app/domain/worker.py over src/app/domain/jobs.py: backoff, and what
-- becomes of a job that a worker has processed.
use ai_text.Prelude.{
  ℕ, zero, suc, ◌+◌, ◌-◌, ◌*◌, ◌^◌, ◌≤◌, ◌<◌, ◌≡◌, refl, ap, ◌∙◌, subst, some_inj, min, Bool, true,
  false, leb, Option, none, some, List, [], ◌∷◌, arith, ==-refl, if◌then◌else◌,
}
use ai_text.Jobs.{
  Job, JobStatus, Queue, ClaimedJob, Dispatched, is_active, update_job, find_job, count_active,
  closed, requeued, requeue_row, backoff_seconds, is_last, process, claim, claim_picked, finish,
  pick, leased,
}
use ai_text.Jobs.Active.{claim_picked-IsJobTable}
use ai_text.Jobs.Rows.{IsJobTable, pick-IsPicked, active_at, count_active-update_job}

power_positive : (n : ℕ) → 0 < 2 ^ n
power_positive zero = omega arith
power_positive (suc n) = omega (arith, power_positive n)

first_exponent : (n : ℕ) → 2 ^ (n + 1 - 1) ≡ 2 ^ n
first_exponent n = ap (λ k. 2 ^ k) (omega arith)

power_suc : (n : ℕ) → 2 ^ suc n ≡ 2 * 2 ^ n
power_suc n = omega arith

next_exponent : (n : ℕ) → 2 ^ (n + 2 - 1) ≡ 2 * 2 ^ n
next_exponent n = ap (λ k. 2 ^ k) (omega arith) ∙ power_suc n

-- The wait before a retry starts at half a minute, doubles with every attempt, and stays at a
-- quarter of an hour at most.
pub backoff_seconds_bounds :
    (n : ℕ)
    → (30 ≤ backoff_seconds n)
      × (backoff_seconds n ≤ 900)
      × (backoff_seconds (n + 2) ≡ min (2 * backoff_seconds (n + 1)) 900)
unfolding backoff_seconds
backoff_seconds_bounds n = (
  omega (arith, power_positive (n - 1)),
  omega arith,
  omega (arith, first_exponent n, next_exponent n),
)

find_job-update_job :
    (id : ℕ) (f : Job → Job) (l : List Job) (j : Job)
    → ((j : Job) → (f j).id ≡ j.id)
    → find_job id l ≡ some j
    → find_job id (update_job id f l) ≡ some (f j)
unfolding find_job update_job
find_job-update_job id f [] j same h = grind (arith, h)
find_job-update_job id f (x ∷ l) j same h = grind (arith, same x, find_job-update_job id f l j same)

-- The row that `_process` is to leave of a job: done if the work returned; if it raised, queued again
-- after half a minute that every attempt doubles, a quarter of an hour at most, and failed in the
-- last attempt. The lease is given up.
abbrev pub settled_row : ℕ → ClaimedJob → Dispatched → ℕ → Job → Job
settled_row max_attempts c Dispatched.returned now j = record j {
  status = JobStatus.done;
  locked_until = none;
}
settled_row max_attempts c Dispatched.raised now j =
    if leb max_attempts c.attempts
    then record j { status = JobStatus.failed; locked_until = none }
    else record j {
      status = JobStatus.queued;
      locked_until = none;
      run_after = now + min (30 * 2 ^ (c.attempts - 1)) 900;
    }

requeue_row-returns :
    (id run_after : ℕ) (q : Queue) (o : Option Job) (j : Job)
    → o ≡ some j
    → find_job id q.jobs ≡ some j
    → count_active j.kind j.ref_id (update_job id (requeued run_after) q.jobs) ≤ 1
    → ((requeue_row id run_after q o).0 ≡ true)
      × (find_job id (requeue_row id run_after q o).1.jobs ≡ some (requeued run_after j))
unfolding requeue_row
requeue_row-returns id run_after q none j e found room = absurd (grind (arith, e))
requeue_row-returns id run_after q (some k) j e found room =
    grind (arith, e, room, find_job-update_job id (requeued run_after) q.jobs j (λ _. refl) found)

-- There is room for the job among the active ones.
room_for :
    (id run_after : ℕ) (l : List Job) (j : Job)
    → find_job id l ≡ some j
    → count_active j.kind j.ref_id l ≤ active_at j.kind j.ref_id j
    → count_active j.kind j.ref_id (update_job id (requeued run_after) l) ≤ 1
room_for id run_after l j found room = grind (
  arith,
  room,
  ==-refl,
  count_active-update_job id (requeued run_after) j.kind j.ref_id l j found,
)

process_row :
    (max_attempts : ℕ) (c : ClaimedJob) (d : Dispatched) (q : Queue) (j : Job)
    → find_job c.id q.jobs ≡ some j
    → count_active j.kind j.ref_id q.jobs ≤ active_at j.kind j.ref_id j
    → ((process max_attempts c d q).0 ≡ true)
      × (find_job c.id (process max_attempts c d q).1.jobs
          ≡ some (settled_row max_attempts c d q.now j))
unfolding process is_last backoff_seconds
process_row max_attempts c Dispatched.returned q j found room =
    (refl, find_job-update_job c.id (closed JobStatus.done) q.jobs j (λ _. refl) found)
process_row max_attempts c Dispatched.raised q j found room = grind (
  arith,
  requeue_row-returns c.id (q.now + min (30 * 2 ^ (c.attempts - 1)) 900) q (find_job c.id q.jobs) j
      found found (room_for c.id (q.now + min (30 * 2 ^ (c.attempts - 1)) 900) q.jobs j found room),
  find_job-update_job c.id (closed JobStatus.failed) q.jobs j (λ _. refl) found,
)

-- In a table that meets its constraints, processing a job that is active never raises. The job is
-- then done if its work returned; queued again if the work raised with attempts left, after half a
-- minute that every attempt doubles, a quarter of an hour at most; and failed if it raised in the last
-- attempt. Nothing else of its row changes but that the lease is given up.
pub process-settled_row :
    (max_attempts : ℕ) (c : ClaimedJob) (d : Dispatched) (q : Queue) (j : Job)
    → IsJobTable q.jobs
    → find_job c.id q.jobs ≡ some j
    → is_active j.status ≡ true
    → ((process max_attempts c d q).0 ≡ true)
      × (find_job c.id (process max_attempts c d q).1.jobs
          ≡ some (settled_row max_attempts c d q.now j))
process-settled_row max_attempts c d q j table found active =
    process_row max_attempts c d q j found
      (grind (arith, active, ==-refl, table.one_active j.kind j.ref_id))

claim-IsJobTable :
    (lease : ℕ) (locked : ℕ → Bool) (q : Queue)
    → IsJobTable q.jobs
    → IsJobTable (claim lease locked q).1.jobs
unfolding claim
claim-IsJobTable lease locked q table = claim_picked-IsJobTable lease locked q _ refl table

-- After a claim, the table has the row of the job, and it is active.
claim-found :
    (lease : ℕ) (locked : ℕ → Bool) (q : Queue) (b : ClaimedJob)
    → IsJobTable q.jobs
    → (claim lease locked q).0 ≡ some b
    → (j : Job) × (find_job b.id (claim lease locked q).1.jobs ≡ some j)
      × (is_active j.status ≡ true)
unfolding claim claim_picked
claim-found lease locked q b table made = by_pick (pick locked q.now q.jobs) refl made
  where
    by_pick :
        (o : Option Job)
        → pick locked q.now q.jobs ≡ o
        → (claim_picked lease q o).0 ≡ some b
        → (j : Job) × (find_job b.id (claim_picked lease q o).1.jobs ≡ some j)
          × (is_active j.status ≡ true)
    by_pick none picked e = absurd (cc)
    by_pick (some j) picked e =
        let p = pick-IsPicked locked q.now q.jobs j table.unique picked in
        let same : j.id ≡ b.id = ap (λ (x : ClaimedJob). x.id) (some_inj e) in
        (
          leased (q.now + lease) j,
          subst
              (λ i.
                find_job i (update_job j.id (leased (q.now + lease)) q.jobs)
                ≡ some (leased (q.now + lease) j))
              same (find_job-update_job j.id (leased (q.now + lease)) q.jobs j (λ _. refl) p.found),
          refl,
        )

-- The row of a finished job, with no active row under its key.
finish-found :
    (max_attempts : ℕ) (b : ClaimedJob) (q : Queue) (j : Job)
    → IsJobTable q.jobs
    → find_job b.id q.jobs ≡ some j
    → is_active j.status ≡ true
    → let q' = (process max_attempts b Dispatched.returned q).1 in
      (find_job b.id q'.jobs ≡ some (record j { status = JobStatus.done; locked_until = none }))
      × (count_active j.kind j.ref_id q'.jobs ≡ 0)
unfolding process finish
finish-found max_attempts b q j table found active = (
  find_job-update_job b.id (closed JobStatus.done) q.jobs j (λ _. refl) found,
  grind (
    arith,
    active,
    ==-refl,
    count_active-update_job b.id (closed JobStatus.done) j.kind j.ref_id q.jobs j found,
    table.one_active j.kind j.ref_id,
  ),
)

-- In a table that meets its constraints: a worker has claimed a job, another worker claims the same
-- job after it and finishes it, and then the first one fails with attempts left. The finished job is
-- queued again, with the backoff of the first worker.
pub process_revives_finished :
    (max_attempts lease : ℕ) (locked : ℕ → Bool) (first second : ClaimedJob) (q : Queue)
    → IsJobTable q.jobs
    → (claim lease locked q).0 ≡ some second
    → second.id ≡ first.id
    → first.attempts < max_attempts
    → let finished = (process max_attempts second Dispatched.returned (claim lease locked q).1).1 in
      let failed = (process max_attempts first Dispatched.raised finished).1 in
      (j j' : Job) × (find_job first.id finished.jobs ≡ some j)
      × (j.status ≡ JobStatus.done)
      × (find_job first.id failed.jobs ≡ some j')
      × (j'.status ≡ JobStatus.queued)
      × (j'.run_after ≡ finished.now + min (30 * 2 ^ (first.attempts - 1)) 900)
process_revives_finished max_attempts lease locked first second q table made same left =
    let q' = (claim lease locked q).1 in
    let table' = claim-IsJobTable lease locked q table in
    let (j, found, active) = claim-found lease locked q second table made in
    let (gone, none_active) = finish-found max_attempts second q' j table' found active in
    let finished = (process max_attempts second Dispatched.returned q').1 in
    let row : find_job first.id finished.jobs
        ≡ some (record j { status = JobStatus.done; locked_until = none }) =
      subst
        (λ i.
          find_job i finished.jobs
          ≡ some (record j { status = JobStatus.done; locked_until = none }))
        same gone in
    let revived =
      process_row max_attempts first Dispatched.raised finished
        (record j { status = JobStatus.done; locked_until = none }) row
        (omega (arith, none_active)) in
    let not_last : leb max_attempts first.attempts ≡ false = ground (arith, left) in
    (_, _, row, refl, rw not_last at revived.1, refl, refl)
