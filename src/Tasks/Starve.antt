-- ===== src/Tasks/Starve.antt =====
-- src/task.c: the pool against the comment at the head of the file.
use musicd.Base.{
  ◌≡◌, refl, ap, ◌∙◌, false, List, [], ◌∷◌, ◌++◌, ◌⊎◌, inl, inr, arith, length, length-append,
}
use musicd.Tasks.Invariant.{IsSound, busy_workers, busy_workers-append, busy_workers-le}
use musicd.Tasks.{
  Task, Thread, choosing, Pool, max_active_workers, start, task_start, Works, chooses, finishes,
  reports, finish, report,
}

-- Only a thread that looks for a task changes the queue.
Works-queue :
    {p q : Pool}
    → Works p q
    → (q.queue ≡ p.queue)
      ⊎ ((before : List Thread) × (after : List Thread) × (p.threads
            ≡ before ++ (choosing ∷ after)))
Works-queue (chooses before after at) = inr (before, after, at)
Works-queue (finishes before task after at) = inl (unfold finish in refl)
Works-queue (reports {p} before task after at) = inl (unfold report in ground arith)

start_full :
    (task : Task) (p : Pool)
    → p.active_workers ≡ max_active_workers
    → (task_start task p).threads ≡ p.threads
unfolding task_start start
start_full task p h = ground arith

start-queue : (task : Task) (p : Pool) → (task_start task p).queue ≡ p.queue ++ (task ∷ [])
unfolding task_start start
start-queue task p = ground arith

-- When four threads are alive and all run worker tasks, a new task that is no worker is queued and
-- no thread is created for it, though 28 more may run: whatever the pool does next, no queued task
-- is taken. The comment promises that worker tasks do not hold up the others.
pub start_starves :
    (task : Task) (p q : Pool)
    → IsSound p
    → p.active_workers ≡ max_active_workers
    → p.active_threads ≡ max_active_workers
    → task.worker ≡ false
    → Works (task_start task p) q
    → q.queue ≡ p.queue ++ (task ∷ [])
start_starves task p q s workers threads plain w = elim (Works-queue w) [
  | inl same ↦ same ∙ start-queue task p
  | inr (before, after, at) ↦ absurd omega (
    arith,
    s.threads_counted,
    s.workers_counted,
    ap length (start_full task p workers),
    ap busy_workers (start_full task p workers),
    ap length at,
    ap busy_workers at,
    length-append before (choosing ∷ after),
    busy_workers-append before (choosing ∷ after),
    busy_workers-le before,
    busy_workers-le after,
  )
]
