-- ===== src/Server.antt =====
-- src/server.c: the list of clients, the array for `poll` beside it, and the loop that serves them.
-- The array's entry for a client is written at its place in the list; `poll_nfds` cells were
-- allocated, and a write behind them is a fault. What `poll` answers, what the kernel answers to each
-- client's `read` and `write`, and what `accept` gives, a descriptor or an error, are arguments; the
-- allocation of `poll_fds` succeeds. `task_pollfd` gives the descriptor of a task's pipe.
pub mod Poll
mod Tests
use musicd.Base.{
  ℕ, zero, suc, ◌+◌, ◌-◌, Bool, true, false, not, ◌&&◌, ◌||◌, List, [], ◌∷◌, ◌++◌, Option, none,
  some, ltb, if◌then◌else◌, get_elem?, set, remove_at, replicate, ℤ, is_zero,
}
use musicd.Memory.{Run, done, fault, out_of_bounds, aborted, ◌>>=◌}
use musicd.Client.{
  Protocol, Client, Read, Write, client_new, client_process, client_poll_fd, client_poll_events,
}

pub record PollFd : Type 0 where
  pub fd : ℕ
  pub pollin : Bool
  pub pollout : Bool

abbrev pub max_clients : ℕ
max_clients = 1024

pub record Server (Self Wait : Type 0) : Type 0 where
  pub master_sock : ℕ
  pub clients : List (Client Self Wait)
  pub poll_fds : List PollFd
  pub poll_nfds : ℕ
  pub nb_clients : ℕ
  -- the descriptors closed, latest first
  pub closed : List ℕ

-- `poll` failed, or nothing is ready, or these are: whether the master socket has POLLIN, and for each
-- place in the array whether the entry has POLLIN or POLLOUT.
pub data Polled : Type 0 where
  poll_error no_events : Polled
  ready : Bool → (ℕ → Bool × Bool) → Polled

-- What the kernel answers to the client at a place of the list.
pub record Kernel : Type 0 where
  pub reads : ℕ → List Read
  pub writes : ℕ → ℕ → Write

module _ {Self Wait : Type 0} (task_pollfd : ℕ → ℕ) where
  unfoldable pub entry : Client Self Wait → PollFd
  entry client =
      let (pollin, pollout) = client_poll_events client in
      record { fd = client_poll_fd task_pollfd client; pollin = pollin; pollout = pollout }

  -- The loop of `build_pollfds` and the entry behind it, with this many cells left.
  unfoldable pub fill : ℕ → ℕ → List (Client Self Wait) → Run (List PollFd)
  unfolding entry
  fill master_sock zero clients = fault out_of_bounds
  fill master_sock (suc cells) [] = done (
      record { fd = master_sock; pollin = true; pollout = false }
      ∷ replicate cells (record { fd = 0; pollin = false; pollout = false }))
  fill master_sock (suc cells) (client ∷ clients) = do
    rest ← fill master_sock cells clients
    done (entry client ∷ rest)

  unfoldable pub build_pollfds : Server Self Wait → Run (Server Self Wait)
  unfolding fill
  build_pollfds s = do
    poll_fds ← fill s.master_sock (s.nb_clients + 1) s.clients
    done (record s { poll_nfds = s.nb_clients + 1; poll_fds = poll_fds })

  unfoldable pub server_add_client : Client Self Wait → Server Self Wait → Run (Server Self Wait)
  unfolding build_pollfds
  server_add_client client s =
      build_pollfds
        (record s { clients = s.clients ++ (client ∷ []); nb_clients = s.nb_clients + 1 })

  -- The client at a place of the list.
  unfoldable pub server_del_client :
      ℕ → Client Self Wait → Server Self Wait → Run (Server Self Wait)
  unfolding build_pollfds
  server_del_client i client s = build_pollfds (record s {
    clients = remove_at i s.clients;
    closed = client.fd ∷ s.closed;
    nb_clients = s.nb_clients - 1;
  })

  -- `accept` gave the descriptor, or failed: then the process is aborted.
  unfoldable pub server_accept : Option ℕ → Server Self Wait → Run (Server Self Wait)
  unfolding server_add_client
  server_accept none s = fault aborted
  server_accept (some fd) s =
      if ltb max_clients (s.nb_clients + 1)
      then done (record s { closed = fd ∷ s.closed })
      else server_add_client (client_new fd) s

  -- Follows `i` links of the list; behind its end there is nothing to follow.
  unfoldable pub find_client : ℕ → List (Client Self Wait) → Run (Client Self Wait)
  find_client i clients = elim (get_elem? clients i) [
    | none ↦ fault out_of_bounds
    | some client ↦ done client
  ]

  -- What the loop does with the client at `i` and its answer: whether to go on, and the server.
  unfoldable pub after_process :
      ℕ → ℤ × Client Self Wait → Server Self Wait → Run (Bool × Server Self Wait)
  unfolding server_del_client
  after_process i (result, client) s =
      let kept = record s {
        clients = set s.clients i client;
        poll_fds = set s.poll_fds i (entry client);
      } in
      elim (is_zero result) [
        | true ↦ done (true, kept)
        | false ↦ do
          rest ← server_del_client i client (record s { clients = set s.clients i client })
          done (false, rest)
      ]

  unfoldable pub serve_client :
      List (Protocol Self Wait) → Kernel → ℕ → Server Self Wait → Run (Bool × Server Self Wait)
  unfolding find_client after_process
  serve_client protocols kernel i s = do
    client ← find_client i s.clients
    processed ← client_process protocols (kernel.reads i) (kernel.writes i) client
    after_process i processed s

  -- The loop over `i`, with this many clients left.
  unfoldable pub serve_clients :
      List (Protocol Self Wait)
      → Kernel
      → (ℕ → Bool × Bool)
      → ℕ
      → ℕ
      → Server Self Wait
      → Run (Server Self Wait)
  unfolding serve_client
  serve_clients protocols kernel revents zero i s = done s
  serve_clients protocols kernel revents (suc left) i s =
      let (pollin, pollout) = revents i in
      elim (pollin || pollout) [
        | false ↦ serve_clients protocols kernel revents left (i + 1) s
        | true ↦ do
          (go_on, s') ← serve_client protocols kernel i s
          elim go_on [
            | false ↦ done s'
            | true ↦ serve_clients protocols kernel revents left (i + 1) s'
          ]
      ]

  -- One round of `thread_func`.
  unfoldable pub poll_round :
      List (Protocol Self Wait)
      → Kernel
      → Option ℕ
      → Polled
      → Server Self Wait
      → Run (Server Self Wait)
  unfolding serve_clients server_accept
  poll_round protocols kernel accepted poll_error s = done s
  poll_round protocols kernel accepted no_events s = done s
  poll_round protocols kernel accepted (ready master revents) s = elim master [
    | true ↦ server_accept accepted s
    | false ↦ serve_clients protocols kernel revents s.nb_clients 0 s
  ]

  -- The rounds of `thread_func`, each with what `accept` would give, what `poll`
  -- answers, and the kernel's answers to the clients.
  unfoldable pub poll_rounds :
      List (Protocol Self Wait)
      → List (Option ℕ × Polled × Kernel)
      → Server Self Wait
      → Run (Server Self Wait)
  unfolding poll_round
  poll_rounds protocols [] s = done s
  poll_rounds protocols ((accepted, polled, kernel) ∷ rounds) s =
      poll_round protocols kernel accepted polled s >>= poll_rounds protocols rounds

  -- `server_start` before the thread runs, on a socket that is bound.
  unfoldable pub server_start : ℕ → Run (Server Self Wait)
  unfolding build_pollfds
  server_start master_sock = build_pollfds (record {
    master_sock = master_sock;
    clients = [];
    poll_fds = [];
    poll_nfds = 1;
    nb_clients = 0;
    closed = [];
  })
