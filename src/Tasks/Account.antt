-- ===== src/Tasks/Account.antt =====
-- src/task.c: where each task is, under every interleaving.
use musicd.Base.{
  ℕ, ◌+◌, ◌≡◌, refl, ap, true, List, [], ◌∷◌, ◌++◌, inl, inr, arith, Option-cases, if◌then◌else◌,
  ◌==◌,
}
use musicd.Tasks.Order.{Picks, take_task-TakeLaw}
use musicd.Tasks.{
  Task, Thread, choosing, running, reporting, Pool, initial, take_task, choose, finish, report,
  start, task_start, task_launch, Works, chooses, finishes, reports, Reach, fresh, starts, launches,
  works,
}

-- How often the task with this address stands in a list.
abbrev pub one : ℕ → Task → ℕ
one id task = if task.id == id then 1 else 0

abbrev pub tally : ℕ → List Task → ℕ
tally id [] = 0
tally id (task ∷ tasks) = one id task + tally id tasks

abbrev pub held : ℕ → Thread → ℕ
held id choosing = 0
held id (running task) = one id task
held id (reporting task) = one id task

abbrev pub in_hand : ℕ → List Thread → ℕ
in_hand id [] = 0
in_hand id (t ∷ ts) = held id t + in_hand id ts

tally-append : (id : ℕ) (xs ys : List Task) → tally id (xs ++ ys) ≡ tally id xs + tally id ys
tally-append id [] ys = omega arith
tally-append id (x ∷ xs) ys = omega (arith, tally-append id xs ys)

in_hand-append :
    (id : ℕ) (ts us : List Thread) → in_hand id (ts ++ us) ≡ in_hand id ts + in_hand id us
in_hand-append id [] us = omega arith
in_hand-append id (t ∷ ts) us = omega (arith, in_hand-append id ts us)

-- Every place where a task can be.
abbrev pub everywhere : ℕ → Pool → ℕ
everywhere id p = tally id p.queue + in_hand id p.threads + tally id p.signalled + tally id p.freed

take_task-tally :
    (id workers : ℕ) (queue : List Task) {found : Task} {rest : List Task}
    → Picks workers queue found rest
    → tally id queue ≡ one id found + tally id rest
take_task-tally id workers queue {found} k = omega (
  arith,
  ap (tally id) k.queue_is,
  ap (tally id) k.rest_is,
  tally-append id k.skipped (found ∷ k.behind),
  tally-append id k.skipped k.behind,
)

start-everywhere :
    (id : ℕ) (task : Task) (p : Pool) → everywhere id (start task p) ≡ one id task + everywhere id p
unfolding start
start-everywhere id task p =
    ground (arith, tally-append id p.queue (task ∷ []), in_hand-append id p.threads (choosing ∷ []))

choose-everywhere :
    (id : ℕ) (before after : List Thread) (p : Pool)
    → p.threads ≡ before ++ (choosing ∷ after)
    → everywhere id (choose before after p) ≡ everywhere id p
choose-everywhere id before after p at = elim (Option-cases (take_task p.active_workers p.queue)) [
  | inl e ↦
      unfold choose in
      rw (e, choose) omega
        (
          arith,
          ap (in_hand id) at,
          in_hand-append id before (choosing ∷ after),
          in_hand-append id before after,
        )
  | inr ((task, rest), e) ↦
      unfold choose in
      rw (e, choose) omega
        (
          arith,
          ap (in_hand id) at,
          take_task-tally id p.active_workers p.queue
              (rw e at (take_task-TakeLaw p.active_workers p.queue)),
          in_hand-append id before (choosing ∷ after),
          in_hand-append id before (running task ∷ after),
        )
]

Works-everywhere : (id : ℕ) {p q : Pool} → Works p q → everywhere id q ≡ everywhere id p
Works-everywhere id (chooses {p} before after at) = choose-everywhere id before after p at
Works-everywhere id (finishes {p} before task after at) =
    unfold finish in
    omega (
      arith,
      ap (in_hand id) at,
      in_hand-append id before (running task ∷ after),
      in_hand-append id before (reporting task ∷ after),
    )
Works-everywhere id (reports {p} before task after at) =
    unfold report in
    ground (
      arith,
      ap (in_hand id) at,
      in_hand-append id before (reporting task ∷ after),
      in_hand-append id before (choosing ∷ after),
    )

-- Under every interleaving each task handed over is in exactly one place, as often as it was
-- handed over: queued, in a thread's hands, signalled to its owner, or freed.
pub Reach-everywhere :
    {given : List Task} {p : Pool} → Reach given p → (id : ℕ) → everywhere id p ≡ tally id given
unfolding task_start task_launch initial
Reach-everywhere fresh id = refl
Reach-everywhere (starts {p = p} task r) id =
    omega (arith, start-everywhere id task p, Reach-everywhere r id)
Reach-everywhere (launches {p = p} task r) id =
    omega (arith, start-everywhere id (record task { detached = true }) p, Reach-everywhere r id)
Reach-everywhere (works r w) id = omega (arith, Works-everywhere id w, Reach-everywhere r id)
