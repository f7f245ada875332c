-- ===== src/Tasks/Order.antt =====
-- Which task a thread takes: the first in the queue that may run.
use musicd.Base.{
  ℕ, ◌≡◌, refl, ap, true, false, List, [], ◌∷◌, ◌++◌, inl, inr, Option, none, some, All, Bool-cases,
}
use musicd.Tasks.{Task, eligible, take_task}

abbrev pub Waits : ℕ → Task → Type 0
Waits active_workers task = eligible active_workers task ≡ false

-- `found` is eligible, those skipped are not, and the others keep their order.
pub record Picks (workers : ℕ) (queue : List Task) (found : Task) (rest : List Task) : Type 0 where
  pub skipped : List Task
  pub behind : List Task
  pub queue_is : queue ≡ skipped ++ (found ∷ behind)
  pub rest_is : rest ≡ skipped ++ behind
  pub all_wait : All (Waits workers) skipped
  pub runs : eligible workers found ≡ true

-- What `take_task` may answer.
abbrev pub TakeLaw : ℕ → List Task → Option (Task × List Task) → Type 0
TakeLaw workers queue none = All (Waits workers) queue
TakeLaw workers queue (some (found, rest)) = Picks workers queue found rest

take_task-skip :
    (workers : ℕ) (task : Task) (queue : List Task) (o : Option (Task × List Task))
    → Waits workers task
    → TakeLaw workers queue o
    → TakeLaw workers
        (task ∷ queue)
        (elim o [ none ↦ none | some (found, rest) ↦ some (found, task ∷ rest) ])
take_task-skip workers task queue none w h = (w, h)
take_task-skip workers task queue (some (found, rest)) w h = record {
  skipped = task ∷ h.skipped;
  behind = h.behind;
  queue_is = ap (◌∷◌ task) h.queue_is;
  rest_is = ap (◌∷◌ task) h.rest_is;
  all_wait = (w, h.all_wait);
  runs = h.runs;
}

-- A thread takes the first task of the queue that is no worker or fits the workers' limit, and
-- leaves the others in their order; it finds none exactly if every queued task must wait.
pub take_task-TakeLaw :
    (workers : ℕ) (queue : List Task) → TakeLaw workers queue (take_task workers queue)
unfolding take_task
take_task-TakeLaw workers [] = tt
take_task-TakeLaw workers (task ∷ queue) = elim (Bool-cases (eligible workers task)) [
  | inl runs ↦ rw runs (record {
    skipped = [];
    behind = queue;
    queue_is = refl;
    rest_is = refl;
    all_wait = tt;
    runs = runs;
  })
  | inr waits ↦ rw waits (
      take_task-skip workers task queue (take_task workers queue) waits
        (take_task-TakeLaw workers queue))
]
