-- ===== src/Tasks/Drain.antt =====
-- src/task.c: the pool without new tasks.
use musicd.Base.{
  ℕ, suc, ◌+◌, ◌*◌, ◌≡◌, ◌≤◌, ◌<◌, refl, ap, List, [], ◌∷◌, ◌++◌, inl, inr, arith, Option-cases,
  Bool-cases, All, true, false, ltb, ◌&&◌, List-cases, length, length-append,
}
use musicd.Tasks.Account.{tally, in_hand, Reach-everywhere}
use musicd.Tasks.Invariant.{IsSound, Reach-IsSound}
use musicd.Tasks.Order.{Picks, take_task-TakeLaw}
use musicd.Tasks.{
  Task, Thread, choosing, running, reporting, Pool, take_task, choose, finish, report, Works, start,
  initial, task_start, task_launch, max_active_threads, max_active_workers, fresh, starts, launches,
  works, chooses, finishes, reports, Reach,
}

-- The steps that a thread needs for what it has in hand, and to end.
abbrev pub weight : Thread → ℕ
weight choosing = 1
weight (running task) = 3
weight (reporting task) = 2

abbrev pub weights : List Thread → ℕ
weights [] = 0
weights (t ∷ ts) = weight t + weights ts

weights-append : (ts us : List Thread) → weights (ts ++ us) ≡ weights ts + weights us
weights-append [] us = omega arith
weights-append (t ∷ ts) us = omega (arith, weights-append ts us)

abbrev pub work : Pool → ℕ
work p = 4 * length p.queue + weights p.threads

take_task-length :
    {workers : ℕ} {queue : List Task} {found : Task} {rest : List Task}
    → Picks workers queue found rest
    → length queue ≡ length rest + 1
take_task-length {found = found} k = omega (
  arith,
  ap length k.queue_is,
  ap length k.rest_is,
  length-append k.skipped (found ∷ k.behind),
  length-append k.skipped k.behind,
)

Works-work : {p q : Pool} → Works p q → work q < work p
Works-work (chooses {p} before after at) =
    elim (Option-cases (take_task p.active_workers p.queue)) [
      | inl e ↦
          unfold choose in
          rw (e, choose) omega
            (
              arith,
              ap weights at,
              weights-append before (choosing ∷ after),
              weights-append before after,
            )
      | inr ((task, rest), e) ↦
          unfold choose in
          rw (e, choose) omega
            (
              arith,
              ap weights at,
              take_task-length (rw e at (take_task-TakeLaw p.active_workers p.queue)),
              weights-append before (choosing ∷ after),
              weights-append before (running task ∷ after),
            )
    ]
Works-work (finishes {p} before task after at) =
    unfold finish in
    omega (
      arith,
      ap weights at,
      weights-append before (running task ∷ after),
      weights-append before (reporting task ∷ after),
    )
Works-work (reports {p} before task after at) =
    unfold report in
    ground (
      arith,
      ap weights at,
      weights-append before (reporting task ∷ after),
      weights-append before (choosing ∷ after),
    )

-- `n` steps of the pool's threads, in any order.
pub data Runs : ℕ → Pool → Pool → Type 0 where
  stop : {p : Pool} → Runs 0 p p
  step : {n : ℕ} {p q r : Pool} → Works p q → Runs n q r → Runs (suc n) p r

-- However the threads are scheduled, without new tasks they take at most four steps for each
-- queued task and three for each live thread before every one of them has ended.
pub Runs-bounded : {n : ℕ} {p q : Pool} → Runs n p q → n + work q ≤ work p
Runs-bounded stop = omega arith
Runs-bounded (step w r) = omega (arith, Works-work w, Runs-bounded r)

-- While a thread is alive, some thread can step.
lively : (p : Pool) (t : Thread) (ts : List Thread) → p.threads ≡ t ∷ ts → (q : Pool) × Works p q
lively p choosing ts e = (choose [] ts p, chooses [] ts e)
lively p (running task) ts e = (finish [] task ts p, finishes [] task ts e)
lively p (reporting task) ts e = (report [] task ts p, reports [] task ts e)

no_thread_no_queue : (p : Pool) → IsSound p → p.threads ≡ [] → p.queue ≡ []
no_thread_no_queue p s ended = elim s.served [
  | inl e ↦ e
  | inr some_thread ↦ absurd (omega (arith, s.threads_counted, ap length ended))
]

quiet-no_threads : (p : Pool) → ((q : Pool) → ¬ Works p q) → p.threads ≡ []
quiet-no_threads p still = elim (List-cases p.threads) [
  | inl e ↦ e
  | inr (t, ts, e) ↦ let (q, w) = lively p t ts e in absurd (still q w)
]

-- Owners are told of tasks that are theirs, and detached ones are freed.
pub record IsReported (p : Pool) : Type 0 where
  pub owned : All (λ (t : Task). t.detached ≡ false) p.signalled
  pub unowned : All (λ (t : Task). t.detached ≡ true) p.freed

start-IsReported : (task : Task) (p : Pool) → IsReported p → IsReported (start task p)
unfolding start
start-IsReported task p h =
    elim (Bool-cases
      (ltb p.active_threads max_active_threads && ltb p.active_workers max_active_workers)) [
        | inl e ↦ rw (e, start) (record { owned = h.owned; unowned = h.unowned })
        | inr e ↦ rw (e, start) (record { owned = h.owned; unowned = h.unowned })
      ]

Works-IsReported : {p q : Pool} → Works p q → IsReported p → IsReported q
Works-IsReported (chooses {p} before after at) h =
    elim (Option-cases (take_task p.active_workers p.queue)) [
      | inl e ↦ unfold choose in rw (e, choose) (record { owned = h.owned; unowned = h.unowned })
      | inr (found, e) ↦
          unfold choose in rw (e, choose) (record { owned = h.owned; unowned = h.unowned })
    ]
Works-IsReported (finishes {p} before task after at) h =
    unfold finish in record { owned = h.owned; unowned = h.unowned }
Works-IsReported (reports {p} before task after at) h = elim (Bool-cases task.detached) [
  | inl e ↦
      unfold report in rw (e, report) (record { owned = h.owned; unowned = (refl, h.unowned) })
  | inr e ↦
      unfold report in rw (e, report) (record { owned = (refl, h.owned); unowned = h.unowned })
]

Reach-IsReported : {given : List Task} {p : Pool} → Reach given p → IsReported p
unfolding task_start task_launch initial
Reach-IsReported fresh = record { owned = tt; unowned = tt }
Reach-IsReported (starts {p = p} task r) = start-IsReported task p (Reach-IsReported r)
Reach-IsReported (launches {p = p} task r) =
    start-IsReported (record task { detached = true }) p (Reach-IsReported r)
Reach-IsReported (works r w) = Works-IsReported w (Reach-IsReported r)

-- Where no thread of a reachable pool can step any more, the queue is empty and every task that
-- was handed over has run to its end, exactly as often as it was handed over: its owner was
-- signalled, which happens to no detached task, or it was detached and freed.
pub quiet_done :
    {given : List Task} {p : Pool}
    → Reach given p
    → ((q : Pool) → ¬ Works p q)
    → (p.queue ≡ [])
      × ((id : ℕ) → tally id p.signalled + tally id p.freed ≡ tally id given)
      × IsReported p
quiet_done {p = p} r still =
    let ended = quiet-no_threads p still in
    let sound = Reach-IsSound r in
    let empty = no_thread_no_queue p sound ended in
    (
      empty,
      λ id. omega (arith, Reach-everywhere r id, ap (tally id) empty, ap (in_hand id) ended),
      Reach-IsReported r,
    )
