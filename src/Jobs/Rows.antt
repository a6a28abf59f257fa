-- ===== src/Jobs/Rows.antt =====
-- What the statements of src/app/domain/jobs.py do to the rows of `domain_jobs`.
use ai_text.Prelude.{
  ℕ, ◌+◌, ◌≤◌, ◌≡◌, refl, sym, subst, ◌⊎◌, inl, inr, Bool, true, false, ◌&&◌, none, some, List, [],
  ◌∷◌, ◌++◌, arith, ==-refl, ◌==◌, if◌then◌else◌,
}
use ai_text.Jobs.{Job, JobKind, is_of, is_active, is_due, count_active, update_job, find_job, pick}

unfoldable pub count_id : ℕ → List Job → ℕ
count_id id [] = 0
count_id id (j ∷ l) = (if j.id == id then 1 else 0) + count_id id l

-- The primary key, and `ux_domain_jobs_active`.
pub record IsJobTable (l : List Job) : Type 0 where
  pub unique : (id : ℕ) → count_id id l ≤ 1
  pub one_active : (kind : JobKind) (ref_id : ℕ) → count_active kind ref_id l ≤ 1

abbrev pub active_at : JobKind → ℕ → Job → ℕ
active_at kind ref_id j = if is_of kind ref_id j && is_active j.status then 1 else 0

pub count_id-append :
    (id : ℕ) (l : List Job) (j : Job)
    → count_id id (l ++ j ∷ []) ≡ count_id id l + (if j.id == id then 1 else 0)
unfolding count_id
count_id-append id [] j = ground arith
count_id-append id (x ∷ l) j = ground (arith, count_id-append id l j)

pub count_active-append :
    (kind : JobKind) (ref_id : ℕ) (l : List Job) (j : Job)
    → count_active kind ref_id (l ++ j ∷ []) ≡ count_active kind ref_id l + active_at kind ref_id j
unfolding count_active
count_active-append kind ref_id [] j = ground arith
count_active-append kind ref_id (x ∷ l) j = ground (arith, count_active-append kind ref_id l j)

pub count_id-find_none : (id : ℕ) (l : List Job) → find_job id l ≡ none → count_id id l ≡ 0
unfolding count_id find_job
count_id-find_none id [] h = refl
count_id-find_none id (x ∷ l) h = grind (arith, count_id-find_none id l)

pub count_id-find_some :
    (id : ℕ) (l : List Job) (j : Job) → find_job id l ≡ some j → 1 ≤ count_id id l
unfolding count_id find_job
count_id-find_some id [] j h = ground arith
count_id-find_some id (x ∷ l) j h = grind (arith, count_id-find_some id l j)

pub count_id-update_job :
    (id other : ℕ) (f : Job → Job) (l : List Job)
    → ((j : Job) → (f j).id ≡ j.id)
    → count_id other (update_job id f l) ≡ count_id other l
unfolding count_id update_job
count_id-update_job id other f [] same = refl
count_id-update_job id other f (x ∷ l) same =
    grind (arith, same x, count_id-update_job id other f l same)

pub count_active-update_job :
    (id : ℕ) (f : Job → Job) (kind : JobKind) (ref_id : ℕ) (l : List Job) (j : Job)
    → find_job id l ≡ some j
    → count_active kind ref_id (update_job id f l) + active_at kind ref_id j
      ≡ count_active kind ref_id l + active_at kind ref_id (f j)
unfolding count_active update_job find_job
count_active-update_job id f kind ref_id [] j h = ground arith
count_active-update_job id f kind ref_id (x ∷ l) j h =
    grind (arith, count_active-update_job id f kind ref_id l j)

pub update_job-missing :
    (id : ℕ) (f : Job → Job) (l : List Job) → find_job id l ≡ none → update_job id f l ≡ l
unfolding update_job find_job
update_job-missing id f [] h = refl
update_job-missing id f (x ∷ l) h = grind (arith, update_job-missing id f l)

-- The job that is picked is a row of the table, due, and not held by another session.
pub record IsPicked (locked : ℕ → Bool) (now : ℕ) (l : List Job) (j : Job) : Type 0 where
  pub found : find_job j.id l ≡ some j
  pub due : is_due now j ≡ true
  pub free : locked j.id ≡ false

pick-cases :
    (locked : ℕ → Bool) (now : ℕ) (x : Job) (l : List Job) (j : Job)
    → pick locked now (x ∷ l) ≡ some j
    → ((j ≡ x) × (is_due now x ≡ true) × (locked x.id ≡ false)) ⊎ (pick locked now l ≡ some j)
unfolding pick
pick-cases locked now x l j h = grind arith

unique_tail :
    (x : Job) (l : List Job) → ((id : ℕ) → count_id id (x ∷ l) ≤ 1) → (id : ℕ) → count_id id l ≤ 1
unfolding count_id
unique_tail x l unique id = grind (arith, unique id)

found_later :
    (x : Job) (l : List Job) (j : Job)
    → ((id : ℕ) → count_id id (x ∷ l) ≤ 1)
    → find_job j.id l ≡ some j
    → find_job j.id (x ∷ l) ≡ some j
unfolding count_id find_job
found_later x l j unique h = grind (arith, unique j.id, count_id-find_some j.id l j h)

found_first : (x : Job) (l : List Job) → find_job x.id (x ∷ l) ≡ some x
unfolding find_job
found_first x l = grind (arith, ==-refl)

pub pick-IsPicked :
    (locked : ℕ → Bool) (now : ℕ) (l : List Job) (j : Job)
    → ((id : ℕ) → count_id id l ≤ 1)
    → pick locked now l ≡ some j
    → IsPicked locked now l j
unfolding pick
pick-IsPicked locked now [] j unique h = ground arith
pick-IsPicked locked now (x ∷ l) j unique h = elim (pick-cases locked now x l j h) [
  | inl (same, due, free) ↦ record {
    found = subst (λ y. find_job y.id (x ∷ l) ≡ some y) (sym same) (found_first x l);
    due = subst (λ y. is_due now y ≡ true) (sym same) due;
    free = subst (λ y. locked y.id ≡ false) (sym same) free;
  }
  | inr later ↦
      let rest = pick-IsPicked locked now l j (unique_tail x l unique) later in
      record { found = found_later x l j unique rest.found; due = rest.due; free = rest.free }
]
