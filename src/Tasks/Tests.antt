-- ===== src/Tasks/Tests.antt =====
-- A run of the pool, and instances of the theorems on it.
use musicd.Base.{ℕ, ◌+◌, ◌≡◌, ◌≤◌, refl, true, false, List, [], ◌∷◌, ◌++◌, inl, arith, some}
use musicd.Tasks.Account.{tally, everywhere, Reach-everywhere}
use musicd.Tasks.Drain.{Runs, stop, step, work, Runs-bounded, quiet_done, IsReported}
use musicd.Tasks.Invariant.{IsSound, Reach-IsSound}
use musicd.Tasks.Order.{TakeLaw, take_task-TakeLaw}
use musicd.Tasks.Starve.{start_starves}
use musicd.Tasks.{
  Task, choosing, running, Pool, initial, take_task, choose, finish, report, start, task_start,
  task_launch, Works, chooses, finishes, reports, Reach, fresh, starts, launches, works,
}

abbrev scale : Task
scale = record { id = 7; worker = true; detached = false }

abbrev fetch : Task
fetch = record { id = 8; worker = false; detached = false }

program : Unit {0}
unfolding initial take_task choose finish report start task_start task_launch
program = tt

abbrev busy_pool : Pool
busy_pool = record {
  queue = [];
  active_workers = 4;
  active_threads = 4;
  threads = running scale ∷ running scale ∷ running scale ∷ running scale ∷ [];
  signalled = [];
  freed = [];
}

-- The owner waits for `scale`, and `fetch` is launched detached.
abbrev given : List Task
given = record fetch { detached = true } ∷ scale ∷ []

abbrev both : Pool
both = task_launch fetch (task_start scale initial)

both_reached : Reach given both
both_reached = launches fetch (starts scale fresh)

-- Every thread runs until it finds no task.
abbrev over : Pool
over = record {
  queue = [];
  active_workers = 0;
  active_threads = 0;
  threads = [];
  signalled = scale ∷ [];
  freed = record fetch { detached = true } ∷ [];
}

over_reached : Reach given over
unfolding program
over_reached =
    works
      (works
        (works
          (works
            (works
              (works
                (works (works both_reached (chooses [] (choosing ∷ []) refl))
                  (chooses (running scale ∷ []) [] refl))
                (finishes [] scale (running (record fetch { detached = true }) ∷ []) refl))
              (reports [] scale (running (record fetch { detached = true }) ∷ []) refl))
            (finishes (choosing ∷ []) (record fetch { detached = true }) [] refl))
          (reports (choosing ∷ []) (record fetch { detached = true }) [] refl))
        (chooses [] (choosing ∷ []) refl))
      (chooses [] [] refl)

take_task-TakeLaw_example : TakeLaw 4 (scale ∷ fetch ∷ []) (take_task 4 (scale ∷ fetch ∷ []))
take_task-TakeLaw_example = take_task-TakeLaw 4 (scale ∷ fetch ∷ [])

takes_the_second : take_task 4 (scale ∷ fetch ∷ []) ≡ some (fetch, scale ∷ [])
unfolding program
takes_the_second = refl

Reach-IsSound_example : IsSound both
Reach-IsSound_example = Reach-IsSound both_reached

Reach-everywhere_example : everywhere 7 both ≡ tally 7 given
Reach-everywhere_example = Reach-everywhere both_reached 7

one_step : Runs 1 both (choose [] (choosing ∷ []) both)
unfolding program
one_step = step (chooses [] (choosing ∷ []) refl) stop

Runs-bounded_example : 1 + work (choose [] (choosing ∷ []) both) ≤ work both
Runs-bounded_example = Runs-bounded one_step

over_quiet : (q : Pool) → ¬ Works over q
over_quiet q w = no_step w refl
  where
    no_step : {p r : Pool} → Works p r → p.threads ≡ [] → ⊥
    no_step (chooses [] after at) e = ground arith
    no_step (chooses (t ∷ before) after at) e = ground arith
    no_step (finishes [] task after at) e = ground arith
    no_step (finishes (t ∷ before) task after at) e = ground arith
    no_step (reports [] task after at) e = ground arith
    no_step (reports (t ∷ before) task after at) e = ground arith

quiet_done_example :
    (over.queue ≡ [])
    × ((id : ℕ) → tally id over.signalled + tally id over.freed ≡ tally id given)
    × IsReported over
quiet_done_example = quiet_done over_reached over_quiet

busy_pool-IsSound : IsSound busy_pool
busy_pool-IsSound = record {
  threads_counted = refl;
  workers_counted = refl;
  threads_bounded = omega arith;
  workers_bounded = omega arith;
  served = inl refl;
}

abbrev after_first : Pool
after_first =
    finish [] scale (running scale ∷ running scale ∷ running scale ∷ [])
      (task_start fetch busy_pool)

start_starves_example : after_first.queue ≡ [] ++ (fetch ∷ [])
unfolding task_start start
start_starves_example =
    start_starves fetch busy_pool after_first busy_pool-IsSound refl refl refl
      (finishes [] scale (running scale ∷ running scale ∷ running scale ∷ []) refl)
