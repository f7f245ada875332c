-- ===== src/Scan/Thread.antt =====
-- src/scan.c: the thread that scans, and its static variables. What the scan does is not followed
-- here: a thread begins, adds tracks, and ends. What stands under the mutex is one step; so is, outside
-- of it, what goes up to the next use of a variable that the threads share.
use musicd.Base.{
  ℕ, ◌+◌, ◌-◌, ◌≤◌, ◌≡◌, refl, Bool, true, false, not, arith, if◌then◌else◌, ℤ, pos, negsuc,
}

-- The static variables, `status` among them, and where the threads stand: calls of `scan_start` that
-- have found no thread running and released the mutex (`checked`), those that have set `thread_running`
-- since (`flagged`); the threads created that have not yet begun, those that scan, those that have
-- ended the scan and are about to call `scan_start` (`restarting`) or to look at `interrupted`
-- (`ending`); and whether the process has exited.
pub record Scanner : Type 0 where
  pub thread_running : Bool
  pub interrupted : Bool
  pub restart : Bool
  pub active : Bool
  pub new_tracks : ℕ
  pub checked : ℕ
  pub flagged : ℕ
  pub created : ℕ
  pub scanning : ℕ
  pub restarting : ℕ
  pub ending : ℕ
  pub exited : Bool

abbrev pub idle_scanner : Scanner
idle_scanner = record {
  thread_running = false;
  interrupted = false;
  restart = false;
  active = false;
  new_tracks = 0;
  checked = 0;
  flagged = 0;
  created = 0;
  scanning = 0;
  restarting = 0;
  ending = 0;
  exited = false;
}

-- `scan_start` under the mutex: with a thread running, the call returns.
unfoldable pub scan_start_check : Scanner → Scanner
scan_start_check s =
    if s.thread_running
    then record s { restart = true; interrupted = true }
    else record s { checked = s.checked + 1 }

-- From there up to `thread_running = true`; `configured` says that music-directory is set.
unfoldable pub scan_start_flag : Bool → Scanner → Scanner
scan_start_flag configured s =
    if not configured
    then record s { checked = s.checked - 1 }
    else record s { thread_running = true; checked = s.checked - 1; flagged = s.flagged + 1 }

-- `creates` says that `pthread_create` succeeds.
unfoldable pub scan_start_create : Bool → Scanner → ℤ × Scanner
scan_start_create creates s =
    if not creates
    then (negsuc 0, record s { flagged = s.flagged - 1 })
    else (pos 0, record s { flagged = s.flagged - 1; created = s.created + 1 })

-- A call that no other thread interrupts.
unfoldable pub scan_start : Bool → Bool → Scanner → ℤ × Scanner
unfolding scan_start_check scan_start_flag scan_start_create
scan_start configured creates s =
    if s.thread_running
    then (pos 0, scan_start_check s)
    else if not configured
    then (pos 0, scan_start_flag configured (scan_start_check s))
    else scan_start_create creates (scan_start_flag configured (scan_start_check s))

unfoldable pub scan_signal_handler : Scanner → Scanner
scan_signal_handler s = record s { interrupted = true }

unfoldable pub scan_track_added : Scanner → Scanner
scan_track_added s = record s { new_tracks = s.new_tracks + 1 }

-- `scan_thread_func` up to the scan: the status is cleared.
unfoldable pub begin_scan : Scanner → Scanner
begin_scan s = record s {
  active = true;
  new_tracks = 0;
  created = s.created - 1;
  scanning = s.scanning + 1;
}

-- What stands under the mutex behind the scan.
unfoldable pub end_scan : Scanner → Scanner
end_scan s =
    let ended = record s { thread_running = false; active = false; scanning = s.scanning - 1 } in
    if s.restart
    then record ended { restart = false; interrupted = false; restarting = s.restarting + 1 }
    else record ended { ending = s.ending + 1 }

-- The thread calls `scan_start`.
unfoldable pub restart_scan : Scanner → Scanner
unfolding scan_start_check
restart_scan s = scan_start_check (record s { restarting = s.restarting - 1 })

unfoldable pub end_thread : Scanner → Scanner
end_thread s =
    if s.interrupted
    then record s { ending = s.ending - 1; exited = true }
    else record s { ending = s.ending - 1 }

-- What one of the threads does between two points where another may come in.
pub data Step : Scanner → Scanner → Type 0 where
  requested : {s : Scanner} → Step s (scan_start_check s)
  set_flag :
      {s : Scanner} (configured : Bool) → 1 ≤ s.checked → Step s (scan_start_flag configured s)
  creating :
      {s : Scanner} (creates : Bool) → 1 ≤ s.flagged → Step s ((scan_start_create creates s).1)
  signalled : {s : Scanner} → Step s (scan_signal_handler s)
  added : {s : Scanner} → 1 ≤ s.scanning → Step s (scan_track_added s)
  begun : {s : Scanner} → 1 ≤ s.created → Step s (begin_scan s)
  ended : {s : Scanner} → 1 ≤ s.scanning → Step s (end_scan s)
  restarted : {s : Scanner} → 1 ≤ s.restarting → Step s (restart_scan s)
  left : {s : Scanner} → 1 ≤ s.ending → Step s (end_thread s)

pub data Steps : Scanner → Scanner → Type 0 where
  stay : {s : Scanner} → Steps s s
  after : {s t u : Scanner} → Steps s t → Step t u → Steps s u

-- A call of `scan_start` takes the mutex, and no other stands between its release and the flag.
abbrev pub IsAlone : {s t : Scanner} → Step s t → Type 0
IsAlone (requested {s}) = s.checked ≡ 0
IsAlone (restarted {s} n) = s.checked ≡ 0
IsAlone (set_flag configured n) = Unit
IsAlone (creating creates n) = Unit
IsAlone signalled = Unit
IsAlone (added n) = Unit
IsAlone (begun n) = Unit
IsAlone (ended n) = Unit
IsAlone (left n) = Unit

abbrev pub AreAlone : {s t : Scanner} → Steps s t → Type 0
AreAlone stay = Unit
AreAlone (after steps step) = AreAlone steps × IsAlone step

-- At most one thread is there or about to be created; if there is one, the flag is set, and the status
-- is active while it scans.
pub record IsSound (s : Scanner) : Type 0 where
  pub single : s.flagged + s.created + s.scanning ≤ (if s.thread_running then 1 else 0)
  pub shown : s.scanning ≡ (if s.active then 1 else 0)
  pub one_call : s.checked ≤ (if s.thread_running then 0 else 1)

Step-IsSound : {s t : Scanner} (step : Step s t) → IsAlone step → IsSound s → IsSound t
unfolding scan_start_check scan_start_flag scan_start_create scan_signal_handler scan_track_added
    begin_scan end_scan restart_scan end_thread
Step-IsSound (requested {s}) alone h = record {
  single = ground (arith, h.single, h.shown, h.one_call);
  shown = ground (arith, h.single, h.shown, h.one_call);
  one_call = ground (arith, h.single, h.shown, h.one_call, alone);
}
Step-IsSound (set_flag {s} configured n) alone h = record {
  single = ground (arith, h.single, h.shown, h.one_call);
  shown = ground (arith, h.single, h.shown, h.one_call);
  one_call = ground (arith, h.single, h.shown, h.one_call);
}
Step-IsSound (creating {s} creates n) alone h = record {
  single = ground (arith, h.single, h.shown, h.one_call);
  shown = ground (arith, h.single, h.shown, h.one_call);
  one_call = ground (arith, h.single, h.shown, h.one_call);
}
Step-IsSound (signalled {s}) alone h = record {
  single = h.single;
  shown = h.shown;
  one_call = h.one_call;
}
Step-IsSound (added {s} n) alone h = record {
  single = h.single;
  shown = h.shown;
  one_call = h.one_call;
}
Step-IsSound (begun {s} n) alone h = record {
  single = ground (arith, h.single, h.shown, h.one_call);
  shown = ground (arith, h.single, h.shown, h.one_call);
  one_call = h.one_call;
}
Step-IsSound (ended {s} n) alone h = record {
  single = ground (arith, h.single, h.shown, h.one_call);
  shown = ground (arith, h.single, h.shown, h.one_call);
  one_call = ground (arith, h.single, h.shown, h.one_call);
}
Step-IsSound (restarted {s} n) alone h = record {
  single = ground (arith, h.single, h.shown, h.one_call);
  shown = ground (arith, h.single, h.shown, h.one_call);
  one_call = ground (arith, h.single, h.shown, h.one_call, alone);
}
Step-IsSound (left {s} n) alone h = record {
  single = ground (arith, h.single);
  shown = ground (arith, h.shown);
  one_call = ground (arith, h.one_call);
}

-- Under every interleaving in which no call of `scan_start` takes the mutex while another has released it
-- and not yet set `thread_running`: at most one thread is created or scans, none unless `thread_running`
-- is set, and the status is active exactly while a thread scans. So two scans run at the same time only
-- after two calls have overlapped in that place.
pub Steps-IsSound : {s : Scanner} (steps : Steps idle_scanner s) → AreAlone steps → IsSound s
Steps-IsSound stay alone = record { single = omega arith; shown = refl; one_call = omega arith }
Steps-IsSound (after steps step) (alones, alone) =
    Step-IsSound step alone (Steps-IsSound steps alones)

abbrev pub raced : Scanner
raced = begin_scan (
    begin_scan (
      (scan_start_create true (
        (scan_start_create true (
          scan_start_flag true
            (scan_start_flag true (scan_start_check (scan_start_check idle_scanner))))).1)).1))

-- Two calls that overlap there create two threads, which scan at the same time.
pub two_scans : Steps idle_scanner raced × (raced.scanning ≡ 2)
unfolding scan_start_check scan_start_flag scan_start_create begin_scan
two_scans = (
  after
      (after
        (after
          (after
            (after (after (after (after stay requested) requested) (set_flag true (omega arith)))
              (set_flag true (omega arith)))
            (creating true (omega arith)))
          (creating true (omega arith)))
        (begun (omega arith)))
      (begun (omega arith)),
  refl,
)

-- No thread is there, and none will be.
pub record IsStuck (s : Scanner) : Type 0 where
  pub runs : s.thread_running ≡ true
  pub nobody : s.checked + s.flagged + s.created + s.scanning + s.restarting ≡ 0

Step-IsStuck : {s t : Scanner} → Step s t → IsStuck s → IsStuck t
unfolding scan_start_check scan_signal_handler scan_track_added end_thread
Step-IsStuck (requested {s}) h = record {
  runs = ground (arith, h.runs);
  nobody = ground (arith, h.runs, h.nobody);
}
Step-IsStuck (set_flag {s} configured n) h = absurd (omega (arith, h.nobody, n))
Step-IsStuck (creating {s} creates n) h = absurd (omega (arith, h.nobody, n))
Step-IsStuck (signalled {s}) h = record { runs = h.runs; nobody = h.nobody }
Step-IsStuck (added {s} n) h = absurd (omega (arith, h.nobody, n))
Step-IsStuck (begun {s} n) h = absurd (omega (arith, h.nobody, n))
Step-IsStuck (ended {s} n) h = absurd (omega (arith, h.nobody, n))
Step-IsStuck (restarted {s} n) h = absurd (omega (arith, h.nobody, n))
Step-IsStuck (left {s} n) h = record {
  runs = ground (arith, h.runs);
  nobody = ground (arith, h.nobody);
}

Steps-IsStuck : {s t : Scanner} → Steps s t → IsStuck s → IsStuck t
Steps-IsStuck stay h = h
Steps-IsStuck (after steps step) h = Step-IsStuck step (Steps-IsStuck steps h)

-- When `pthread_create` fails, with no thread there and no other call under way, `scan_start` returns -1
-- and leaves `thread_running` set: however the server goes on, no thread is ever there again.
pub scan_start_create-IsStuck :
    (s t : Scanner)
    → s.thread_running ≡ true
    → s.checked + s.created + s.scanning + s.restarting ≡ 0
    → s.flagged ≡ 1
    → Steps ((scan_start_create false s).1) t
    → ((scan_start_create false s).0 ≡ negsuc 0) × IsStuck t
unfolding scan_start_create
scan_start_create-IsStuck s t runs nobody one steps =
    (refl, Steps-IsStuck steps (record { runs = runs; nobody = omega (arith, nobody, one) }))
