-- ===== src/Tasks.antt =====
-- src/task.c: the queue of tasks and the pool of detached threads that run them. The queue, linked
-- in C by `next` and `prev`, is a list from `next_task` to `last_task`. The code between a lock and
-- an unlock of `task_mutex` is one step; a thread stands between two steps in one of three phases.
-- `pthread_create` is taken to succeed (the source aborts the process otherwise).
pub mod Order
pub mod Invariant
pub mod Account
pub mod Drain
pub mod Starve
mod Tests
use musicd.Base.{
  ℕ, ◌+◌, ◌-◌, ◌≡◌, Bool, true, false, not, ◌&&◌, ◌||◌, List, [], ◌∷◌, ◌++◌, Option, none, some,
  ltb, if◌then◌else◌,
}

-- `id` stands for the task's address.
pub record Task : Type 0 where
  pub id : ℕ
  pub worker : Bool
  pub detached : Bool

-- `choosing`: before the first lock of the loop. `running`: inside `task->func`.
-- `reporting`: after the second unlock, before the pipe is written or the task freed.
pub data Thread : Type 0 where
  choosing : Thread
  running : Task → Thread
  reporting : Task → Thread

pub record Pool : Type 0 where
  pub queue : List Task
  pub active_workers : ℕ
  pub active_threads : ℕ
  pub threads : List Thread
  -- tasks whose pipe was written, and detached tasks that were freed, latest first
  pub signalled : List Task
  pub freed : List Task

abbrev pub max_active_workers : ℕ
max_active_workers = 4

abbrev pub max_active_threads : ℕ
max_active_threads = 32

pub initial : Pool
initial = record {
  queue = [];
  active_workers = 0;
  active_threads = 0;
  threads = [];
  signalled = [];
  freed = [];
}

pub eligible : ℕ → Task → Bool
eligible active_workers task = not task.worker || ltb active_workers max_active_workers

-- The `for` loop that looks for a task, and the unlinking of the one found.
pub take_task : ℕ → List Task → Option (Task × List Task)
unfolding eligible
take_task active_workers [] = none
take_task active_workers (task ∷ queue) =
    if eligible active_workers task
    then some (task, queue)
    else elim (take_task active_workers queue) [
      | none ↦ none
      | some (found, rest) ↦ some (found, task ∷ rest)
    ]

-- The first critical section of `thread_func`, run by the thread between `before` and `after`.
pub choose : List Thread → List Thread → Pool → Pool
choose before after p = elim (take_task p.active_workers p.queue) [
  | none ↦ record p { active_threads = p.active_threads - 1; threads = before ++ after }
  | some (task, rest) ↦ record p {
    queue = rest;
    active_workers = if task.worker then p.active_workers + 1 else p.active_workers;
    threads = before ++ (running task ∷ after);
  }
]

-- The second critical section.
pub finish : List Thread → Task → List Thread → Pool → Pool
finish before task after p = record p {
  active_workers = if task.worker then p.active_workers - 1 else p.active_workers;
  threads = before ++ (reporting task ∷ after);
}

-- What follows it: the pipe tells the owner, and a detached task is freed.
pub report : List Thread → Task → List Thread → Pool → Pool
report before task after p =
    if not task.detached
    then record p { signalled = task ∷ p.signalled; threads = before ++ (choosing ∷ after) }
    else record p { freed = task ∷ p.freed; threads = before ++ (choosing ∷ after) }

pub start : Task → Pool → Pool
start task p =
    let queued = record p { queue = p.queue ++ (task ∷ []) } in
    if ltb p.active_threads max_active_threads && ltb p.active_workers max_active_workers
    then record queued {
      threads = p.threads ++ (choosing ∷ []);
      active_threads = p.active_threads + 1;
    }
    else queued

pub task_start : Task → Pool → Pool
task_start = start

pub task_launch : Task → Pool → Pool
task_launch task p = start (record task { detached = true }) p

-- One step of one of the pool's threads.
pub data Works : Pool → Pool → Type 0 where
  chooses :
      {p : Pool} (before after : List Thread)
      → p.threads ≡ before ++ (choosing ∷ after)
      → Works p (choose before after p)
  finishes :
      {p : Pool} (before : List Thread) (task : Task) (after : List Thread)
      → p.threads ≡ before ++ (running task ∷ after)
      → Works p (finish before task after p)
  reports :
      {p : Pool} (before : List Thread) (task : Task) (after : List Thread)
      → p.threads ≡ before ++ (reporting task ∷ after)
      → Works p (report before task after p)

-- The histories of the pool under every interleaving, with the tasks handed over so far.
pub data Reach : List Task → Pool → Type 0 where
  fresh : Reach [] initial
  starts :
      {given : List Task} {p : Pool} (task : Task)
      → Reach given p
      → Reach (task ∷ given) (task_start task p)
  launches :
      {given : List Task} {p : Pool} (task : Task)
      → Reach given p
      → Reach (record task { detached = true } ∷ given) (task_launch task p)
  works : {given : List Task} {p q : Pool} → Reach given p → Works p q → Reach given q
