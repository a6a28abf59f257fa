-- ===== src/Jobs/Lease.antt =====
-- `claim` of src/app/domain/jobs.py: which job it takes, and that a lease is exclusive.
use ai_text.Prelude.{
  ℕ, ◌+◌, ◌≤◌, ◌≡◌, refl, subst, Bool, true, false, not, ◌&&◌, Option, none, some, List, [], ◌∷◌,
  arith, All, leb, inl, inr, Bool-cases,
}
use ai_text.Jobs.{
  Job, JobStatus, Queue, ClaimedJob, is_due, earlier, update_job, find_job, pick, claim,
  claim_picked, leased,
}
use ai_text.Jobs.Rows.{IsJobTable, pick-IsPicked, count_id}

-- Nothing that may be taken is due before the job that is picked; if nothing is picked, nothing is due.
abbrev pub IsNoEarlier : (ℕ → Bool) → ℕ → Option Job → Job → Type 0
IsNoEarlier locked now none k = is_due now k && not (locked k.id) ≡ false
IsNoEarlier locked now (some j) k =
    is_due now k && not (locked k.id) ≡ true → j.run_after ≤ k.run_after

IsNoEarlier-weaken :
    (locked : ℕ → Bool) (now : ℕ) (x : Job) (rest : Option Job) (k : Job)
    → is_due now x && not (locked x.id) ≡ true
    → IsNoEarlier locked now rest k
    → IsNoEarlier locked now (earlier x rest) k
IsNoEarlier-weaken locked now x none k here h = λ due. grind arith
IsNoEarlier-weaken locked now x (some j) k here h =
    elim (Bool-cases (leb x.run_after j.run_after)) [
      | inl le ↦ rw le (λ due. grind (arith, h due))
      | inr gt ↦ rw gt (λ due. grind (arith, h due))
    ]

IsNoEarlier-self :
    (locked : ℕ → Bool) (now : ℕ) (x : Job) (rest : Option Job)
    → IsNoEarlier locked now (earlier x rest) x
IsNoEarlier-self locked now x none = λ due. ground arith
IsNoEarlier-self locked now x (some j) = elim (Bool-cases (leb x.run_after j.run_after)) [
  | inl le ↦ rw le (λ due. ground arith)
  | inr gt ↦ rw gt (λ due. ground arith)
]

IsNoEarlier-idle :
    (locked : ℕ → Bool) (now : ℕ) (x : Job) (rest : Option Job)
    → is_due now x && not (locked x.id) ≡ false
    → IsNoEarlier locked now rest x
IsNoEarlier-idle locked now x none idle = idle
IsNoEarlier-idle locked now x (some j) idle = λ due. grind arith

All-map {ℓ} :
    {A : Type ℓ} {P Q : A → Type 0} (l : List A) → ((a : A) → P a → Q a) → All P l → All Q l
All-map [] f h = tt
All-map (x ∷ l) f h = (f x h.0, All-map l f h.1)

pick_due :
    (locked : ℕ → Bool) (now : ℕ) (x : Job) (l : List Job)
    → is_due now x && not (locked x.id) ≡ true
    → earlier x (pick locked now l) ≡ pick locked now (x ∷ l)
unfolding pick
pick_due locked now x l due = rw due refl

pick_idle :
    (locked : ℕ → Bool) (now : ℕ) (x : Job) (l : List Job)
    → is_due now x && not (locked x.id) ≡ false
    → pick locked now l ≡ pick locked now (x ∷ l)
unfolding pick
pick_idle locked now x l idle = rw idle refl

pick-IsNoEarlier :
    (locked : ℕ → Bool) (now : ℕ) (l : List Job)
    → All (IsNoEarlier locked now (pick locked now l)) l
pick-IsNoEarlier locked now [] = tt
pick-IsNoEarlier locked now (x ∷ l) = elim (Bool-cases (is_due now x && not (locked x.id))) [
  | inl due ↦
      subst (λ o. All (IsNoEarlier locked now o) (x ∷ l)) (pick_due locked now x l due)
        (
          IsNoEarlier-self locked now x (pick locked now l),
          All-map l (λ k. IsNoEarlier-weaken locked now x (pick locked now l) k due)
              (pick-IsNoEarlier locked now l),
        )
  | inr idle ↦
      subst (λ o. All (IsNoEarlier locked now o) (x ∷ l)) (pick_idle locked now x l idle)
        (IsNoEarlier-idle locked now x (pick locked now l) idle, pick-IsNoEarlier locked now l)
]

-- What a claim is to take: the job that has been due longest, unless there is none.
abbrev pub IsFirstDue : (ℕ → Bool) → Queue → Option ClaimedJob → Type 0
IsFirstDue locked q none = All (λ k. is_due q.now k && not (locked k.id) ≡ false) q.jobs
IsFirstDue locked q (some c) =
    (j : Job) × (find_job c.id q.jobs ≡ some j)
    × (is_due q.now j ≡ true)
    × (locked c.id ≡ false)
    × All (λ k. is_due q.now k && not (locked k.id) ≡ true → j.run_after ≤ k.run_after) q.jobs

claim_picked-IsFirstDue :
    (lease : ℕ) (locked : ℕ → Bool) (q : Queue) (o : Option Job)
    → pick locked q.now q.jobs ≡ o
    → IsJobTable q.jobs
    → All (IsNoEarlier locked q.now o) q.jobs
    → IsFirstDue locked q (claim_picked lease q o).0
unfolding claim_picked
claim_picked-IsFirstDue lease locked q none picked h first = first
claim_picked-IsFirstDue lease locked q (some j) picked h first =
    let p = pick-IsPicked locked q.now q.jobs j h.unique picked in
    (j, p.found, p.due, p.free, first)

-- In a table that meets its constraints: a claim takes a job if and only if one is due that no
-- other session holds, queued or with its lease run out, and of those one that is due longest.
pub claim-IsFirstDue :
    (lease : ℕ) (locked : ℕ → Bool) (q : Queue)
    → IsJobTable q.jobs
    → IsFirstDue locked q (claim lease locked q).0
unfolding claim
claim-IsFirstDue lease locked q h =
    claim_picked-IsFirstDue lease locked q (pick locked q.now q.jobs) refl h
      (pick-IsNoEarlier locked q.now q.jobs)

-- A row that is leased until then, if it is the row of this id.
abbrev pub IsLeased : ℕ → ℕ → Job → Type 0
IsLeased id until j = j.id ≡ id → (j.status ≡ JobStatus.running) × (j.locked_until ≡ some until)

absent-IsLeased : (id until : ℕ) (l : List Job) → count_id id l ≡ 0 → All (IsLeased id until) l
unfolding count_id
absent-IsLeased id until [] h = tt
absent-IsLeased id until (x ∷ l) h =
    (λ same. grind (arith, h, same), absent-IsLeased id until l (grind (arith, h)))

update_job-IsLeased :
    (id until : ℕ) (l : List Job)
    → count_id id l ≤ 1
    → All (IsLeased id until) (update_job id (leased until) l)
unfolding count_id update_job
update_job-IsLeased id until [] h = tt
update_job-IsLeased id until (x ∷ l) h =
    grind (arith, absent-IsLeased id until l, update_job-IsLeased id until l)

pub claim_picked-IsLeased :
    (lease : ℕ) (q : Queue) (o : Option Job) (c : ClaimedJob)
    → IsJobTable q.jobs
    → (claim_picked lease q o).0 ≡ some c
    → All (IsLeased c.id (q.now + lease)) (claim_picked lease q o).1.jobs
unfolding claim_picked
claim_picked-IsLeased lease q none c h e = ground arith
claim_picked-IsLeased lease q (some j) c h e =
    grind (arith, update_job-IsLeased j.id (q.now + lease) q.jobs (h.unique j.id))
