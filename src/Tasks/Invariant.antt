-- ===== src/Tasks/Invariant.antt =====
-- src/task.c: the counters and their limits.
use musicd.Base.{
  ℕ, ◌+◌, ◌≡◌, ◌≤◌, ◌<◌, refl, ap, true, List, [], ◌∷◌, ◌++◌, ◌⊎◌, inl, inr, none, some, All, arith,
  Option-cases, if◌then◌else◌, length, length-append,
}
use musicd.Tasks.Order.{Waits, take_task-TakeLaw}
use musicd.Tasks.{
  Task, Thread, choosing, running, reporting, Pool, initial, eligible, take_task,
  max_active_workers, max_active_threads, choose, finish, report, start, task_start, task_launch,
  Works, chooses, finishes, reports, Reach, fresh, starts, launches, works,
}

-- 1 for a thread that runs a worker task.
abbrev pub busy : Thread → ℕ
busy choosing = 0
busy (running task) = if task.worker then 1 else 0
busy (reporting task) = 0

abbrev pub busy_workers : List Thread → ℕ
busy_workers [] = 0
busy_workers (t ∷ ts) = busy t + busy_workers ts

pub busy_workers-append :
    (ts us : List Thread) → busy_workers (ts ++ us) ≡ busy_workers ts + busy_workers us
busy_workers-append [] us = omega arith
busy_workers-append (t ∷ ts) us = omega (arith, busy_workers-append ts us)

busy-le-one : (t : Thread) → busy t ≤ 1
busy-le-one choosing = omega arith
busy-le-one (running task) = ground arith
busy-le-one (reporting task) = omega arith

pub busy_workers-le : (ts : List Thread) → busy_workers ts ≤ length ts
busy_workers-le [] = omega arith
busy_workers-le (t ∷ ts) = omega (arith, busy-le-one t, busy_workers-le ts)

pub record IsSound (p : Pool) : Type 0 where
  pub threads_counted : p.active_threads ≡ length p.threads
  pub workers_counted : p.active_workers ≡ busy_workers p.threads
  pub threads_bounded : p.active_threads ≤ max_active_threads
  pub workers_bounded : p.active_workers ≤ max_active_workers
  pub served : (p.queue ≡ []) ⊎ (0 < p.active_threads)

initial-IsSound : IsSound initial
unfolding initial
initial-IsSound = ground arith

start-IsSound : (task : Task) (p : Pool) → IsSound p → IsSound (start task p)
unfolding start
start-IsSound task p s = ground (
  arith,
  busy_workers-append p.threads (choosing ∷ []),
  length-append p.threads (choosing ∷ []),
  busy_workers-le p.threads,
)

-- If every queued task has to wait, then the workers' limit is reached or nothing is queued.
Waits-limit :
    (workers : ℕ) (queue : List Task)
    → All (Waits workers) queue
    → (queue ≡ []) ⊎ (max_active_workers ≤ workers)
Waits-limit workers [] h = inl refl
Waits-limit workers (task ∷ queue) h = inr (waits-le workers task h.0)
  where
    waits-le : (workers : ℕ) (task : Task) → Waits workers task → max_active_workers ≤ workers
    waits-le workers task w = unfold eligible in ground arith

module _ (before after : List Thread) (p : Pool) (s : IsSound p) where
  choose_idle-IsSound :
      take_task p.active_workers p.queue ≡ none
      → p.threads ≡ before ++ (choosing ∷ after)
      → IsSound (choose before after p)
  unfolding choose
  choose_idle-IsSound e at =
      let law = rw e at (take_task-TakeLaw p.active_workers p.queue) in
      rw (e, choose) ground
        (
          arith,
          ap length at,
          ap busy_workers at,
          Waits-limit p.active_workers p.queue law,
          length-append before (choosing ∷ after),
          length-append before after,
          busy_workers-append before (choosing ∷ after),
          busy_workers-append before after,
          busy_workers-le (before ++ after),
        )

  choose_task-IsSound :
      (task : Task) (rest : List Task)
      → take_task p.active_workers p.queue ≡ some (task, rest)
      → p.threads ≡ before ++ (choosing ∷ after)
      → IsSound (choose before after p)
  unfolding choose eligible
  choose_task-IsSound task rest e at =
      let law = rw e at (take_task-TakeLaw p.active_workers p.queue) in
      rw (e, choose) ground
        (
          arith,
          ap length at,
          ap busy_workers at,
          law.runs,
          length-append before (choosing ∷ after),
          length-append before (running task ∷ after),
          busy_workers-append before (choosing ∷ after),
          busy_workers-append before (running task ∷ after),
        )

finish-IsSound :
    (before : List Thread) (task : Task) (after : List Thread) (p : Pool)
    → p.threads ≡ before ++ (running task ∷ after)
    → IsSound p
    → IsSound (finish before task after p)
unfolding finish
finish-IsSound before task after p at s = ground (
  arith,
  ap length at,
  ap busy_workers at,
  length-append before (running task ∷ after),
  length-append before (reporting task ∷ after),
  busy_workers-append before (running task ∷ after),
  busy_workers-append before (reporting task ∷ after),
)

report-IsSound :
    (before : List Thread) (task : Task) (after : List Thread) (p : Pool)
    → p.threads ≡ before ++ (reporting task ∷ after)
    → IsSound p
    → IsSound (report before task after p)
unfolding report
report-IsSound before task after p at s = ground (
  arith,
  ap length at,
  ap busy_workers at,
  length-append before (reporting task ∷ after),
  length-append before (choosing ∷ after),
  busy_workers-append before (reporting task ∷ after),
  busy_workers-append before (choosing ∷ after),
)

pub choose-IsSound :
    (before after : List Thread) (p : Pool)
    → p.threads ≡ before ++ (choosing ∷ after)
    → IsSound p
    → IsSound (choose before after p)
choose-IsSound before after p at s = elim (Option-cases (take_task p.active_workers p.queue)) [
  | inl e ↦ choose_idle-IsSound before after p s e at
  | inr ((task, rest), e) ↦ choose_task-IsSound before after p s task rest e at
]

pub Works-IsSound : {p q : Pool} → Works p q → IsSound p → IsSound q
Works-IsSound (chooses {p} before after at) s = choose-IsSound before after p at s
Works-IsSound (finishes {p} before task after at) s = finish-IsSound before task after p at s
Works-IsSound (reports {p} before task after at) s = report-IsSound before task after p at s

-- In every state that any interleaving reaches, `active_threads` and `active_workers` are the
-- numbers of live threads and of threads running a worker task, they are at most 32 and 4, and if
-- a task is queued then some thread is alive to come for it.
pub Reach-IsSound : {given : List Task} {p : Pool} → Reach given p → IsSound p
unfolding task_start task_launch
Reach-IsSound fresh = initial-IsSound
Reach-IsSound (starts {p = p} task r) = start-IsSound task p (Reach-IsSound r)
Reach-IsSound (launches {p = p} task r) =
    start-IsSound (record task { detached = true }) p (Reach-IsSound r)
Reach-IsSound (works r w) = Works-IsSound w (Reach-IsSound r)
