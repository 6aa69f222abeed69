-- ===== src/Archive/Jobs/Invariant.antt =====
-- What holds of the jobs at any time (archive/src/manager.rs).
use janitor.Base.{
  String, ℕ, ◌+◌, ◌-◌, ◌≤◌, ◌≡◌, refl, Option, none, some, List, [], ◌∷◌, ◌++◌, Bool, true, false,
  ◌||◌, arith, inl, inr, ◌⊎◌, Bool-cases, Option-cases, str_eq, lookup, remove, lookup-remove,
  lookup-insert, Dict, All, All-append, length, length-append, filterb, ltb, find,
}
use janitor.Archive.Jobs.{
  JobStatus, pending, running, completed, failed, cancelled, JobInfo, Manager, is_running,
  is_completed, is_failed, push_history, drop_first, settle, complete, fail, start, job_new,
  spawned_job, store_active, finish_task, cancel_job, retire, retire_all, assume_completed,
  cleanup_finished_jobs, background_cleanup, get_statistics, values,
}
use janitor.Archive.Jobs.Steps.{
  Step, stored, ended, handle_done, cancelling, cleaned, cleaned_behind, Reachable, initial, after,
}

-- A job in the history was ended, or was taken there as it ran.
abbrev pub is_settled : JobStatus → Bool
is_settled status = is_running status || is_completed status || is_failed status

abbrev pub IsActive : JobInfo → Type 0
IsActive job = is_running job.status ≡ true

abbrev pub IsPast : JobInfo → Type 0
IsPast job = is_settled job.status ≡ true

-- Every active job is marked as running, the history is short, and no job in it is pending or
-- cancelled.
pub record IsConsistent (m : Manager) : Type 0 where
  pub active : (name : String) (job : JobInfo) → lookup name m.active_jobs ≡ some job → IsActive job
  pub past : All IsPast m.job_history
  pub short : length m.job_history ≤ 100

All-drop_first : (history : List JobInfo) → All IsPast history → All IsPast (drop_first history)
unfolding drop_first
All-drop_first [] a = tt
All-drop_first (job ∷ rest) a = a.1

length-drop_first : (history : List JobInfo) → length (drop_first history) ≡ length history - 1
unfolding drop_first
length-drop_first [] = omega arith
length-drop_first (job ∷ rest) = omega arith

push_history-IsPast :
    (history : List JobInfo) (job : JobInfo)
    → All IsPast history
    → IsPast job
    → All IsPast (push_history history job)
unfolding push_history
push_history-IsPast history job a p = elim (Bool-cases (ltb 100 (length (history ++ job ∷ [])))) [
  | inl e ↦
      rw e (All-drop_first (history ++ job ∷ []) (All-append IsPast history (job ∷ []) a (p, tt)))
  | inr e ↦ rw e (All-append IsPast history (job ∷ []) a (p, tt))
]

push_history-short :
    (history : List JobInfo) (job : JobInfo)
    → length history ≤ 100
    → length (push_history history job) ≤ 100
unfolding push_history
push_history-short history job h =
    ground (arith, length-append history (job ∷ []), length-drop_first (history ++ job ∷ []))

-- Taking an active job to the history, with a status that may stand there.
retired-IsConsistent :
    (m : Manager) (name : String) (job job' : JobInfo) (times : Dict ℕ)
    → IsConsistent m
    → IsPast job'
    → IsConsistent (record m {
      active_jobs = remove name m.active_jobs;
      job_history = push_history m.job_history job';
      last_publish = times;
    })
retired-IsConsistent m name job job' times c p = record {
  active = λ j x e. ground (arith, c.active j x, lookup-remove name j m.active_jobs, e);
  past = push_history-IsPast m.job_history job' c.past p;
  short = push_history-short m.job_history job' c.short;
}

settle-IsPast : (now : ℕ) (error : Option String) (job : JobInfo) → IsPast (settle now error job)
unfolding settle complete fail is_running is_completed is_failed
settle-IsPast now none job = refl
settle-IsPast now (some e) job = refl

finish_task-IsConsistent :
    (now : ℕ) (name : String) (error : Option String) (m : Manager)
    → IsConsistent m
    → IsConsistent (finish_task now name error m)
unfolding finish_task
finish_task-IsConsistent now name error m c = elim (Option-cases (lookup name m.active_jobs)) [
  | inl e ↦ rw (e, finish_task) c
  | inr (job, e) ↦
      rw (e, finish_task)
        (retired-IsConsistent m name job (settle now error job) _ c (settle-IsPast now error job))
]

-- An update that leaves a running job with a status that may stand in the history.
abbrev Settles : (JobInfo → JobInfo) → Type 0
Settles update = (job : JobInfo) → IsActive job → IsPast (update job)

retire-IsConsistent :
    (update : JobInfo → JobInfo) (name : String) (m : Manager)
    → Settles update
    → IsConsistent m
    → IsConsistent (retire update name m)
unfolding retire
retire-IsConsistent update name m u c = elim (Option-cases (lookup name m.active_jobs)) [
  | inl e ↦ rw (e, retire) c
  | inr (job, e) ↦
      rw (e, retire)
        (retired-IsConsistent m name job (update job) _ c (u job (c.active name job e)))
]

retire_all-IsConsistent :
    (update : JobInfo → JobInfo) (names : List String) (m : Manager)
    → Settles update
    → IsConsistent m
    → IsConsistent (retire_all update names m)
unfolding retire_all
retire_all-IsConsistent update [] m u c = c
retire_all-IsConsistent update (name ∷ rest) m u c =
    retire_all-IsConsistent update rest (retire update name m) u
      (retire-IsConsistent update name m u c)

assume_completed-Settles : (now : ℕ) → Settles (assume_completed now)
unfolding assume_completed complete is_completed
assume_completed-Settles now job a = ground (arith, a)

keep-Settles : Settles (λ job. job)
keep-Settles job a = ground (arith, a)

store_active-IsConsistent :
    (id name : String) (campaign : Option String) (now : ℕ) (m : Manager)
    → IsConsistent m
    → IsConsistent (store_active (spawned_job id now name campaign) m)
unfolding store_active spawned_job start job_new is_running
store_active-IsConsistent id name campaign now m c = record {
  active = λ j x e. ground (
    arith,
    e,
    c.active j x,
    lookup-insert name j (spawned_job id now name campaign) m.active_jobs,
  );
  past = c.past;
  short = c.short;
}

cancel_job-IsConsistent :
    (id : String) (m : Manager) → IsConsistent m → IsConsistent (cancel_job id m).1
unfolding cancel_job
cancel_job-IsConsistent id m c =
    elim (Option-cases (find (λ job. str_eq job.id id) (values m.active_jobs))) [
      | inl e ↦ rw (e, cancel_job) c
      | inr (job, e) ↦
          rw (e, cancel_job) (record { active = c.active; past = c.past; short = c.short })
    ]

Step-IsConsistent : {m m' : Manager} → Step m m' → IsConsistent m → IsConsistent m'
unfolding cleanup_finished_jobs background_cleanup
Step-IsConsistent (stored id name campaign now m) c =
    store_active-IsConsistent id name campaign now m c
Step-IsConsistent (ended now name error m) c = finish_task-IsConsistent now name error m c
Step-IsConsistent (handle_done id m) c = record {
  active = c.active;
  past = c.past;
  short = c.short;
}
Step-IsConsistent (cancelling id m) c = cancel_job-IsConsistent id m c
Step-IsConsistent (cleaned now m) c =
    retire_all-IsConsistent (assume_completed now) _ m (assume_completed-Settles now) c
Step-IsConsistent (cleaned_behind m) c = retire_all-IsConsistent (λ job. job) _ m keep-Settles c

-- In whatever order callers and tasks take their steps, every active job is marked as running, the
-- history has at most 100 jobs, and each of them is marked as completed, failed or still running: a
-- cancelled job is never marked as such.
pub Reachable-IsConsistent : (m : Manager) → Reachable m → IsConsistent m
unfolding lookup
Reachable-IsConsistent _ initial = record {
  active = λ name job e. absurd (cc e);
  past = tt;
  short = omega arith;
}
Reachable-IsConsistent _ (after {m} r s) = Step-IsConsistent s (Reachable-IsConsistent m r)

completed_or_failed :
    (status : JobStatus) → (is_completed status ≡ false) ⊎ (is_failed status ≡ false)
unfolding is_completed is_failed
completed_or_failed completed = inr refl
completed_or_failed failed = inl refl
completed_or_failed pending = inl refl
completed_or_failed running = inl refl
completed_or_failed cancelled = inl refl

count_by :
    (history : List JobInfo)
    → length (filterb (λ job. is_completed job.status) history)
        + length (filterb (λ job. is_failed job.status) history)
      ≤ length history
unfolding is_completed is_failed
count_by [] = omega arith
count_by (job ∷ rest) = elim (completed_or_failed job.status) [
  | inl e ↦ ground (arith, e, count_by rest)
  | inr e ↦ ground (arith, e, count_by rest)
]

-- At any time, the statistics count at most 100 past jobs, and no more completed and failed jobs
-- together than past ones.
get_statistics_fit :
    (m : Manager)
    → Reachable m
    → ((get_statistics m).completed_jobs + (get_statistics m).failed_jobs
        ≤ (get_statistics m).total_historical_jobs)
      × ((get_statistics m).total_historical_jobs ≤ 100)
unfolding get_statistics
get_statistics_fit m r = (count_by m.job_history, (Reachable-IsConsistent m r).short)
