-- ===== src/Server/Poll.antt =====
-- src/server.c: the list of clients and the array for `poll` over the rounds of the loop.
use musicd.Base.{
  ℕ, zero, suc, ◌+◌, ◌-◌, ◌≤◌, ◌<◌, ◌≡◌, refl, sym, ap, ◌∙◌, Bool, true, false, ◌||◌, List, [], ◌∷◌,
  ◌++◌, inl, inr, arith, Bool-cases, map, All, All-append, length, length-append, length-map,
  get_elem?-some, length-set, length-remove_at, ◌⊎◌, Option, none, some, set-append, set-map,
  All-set, All-remove_at, All-get_elem?, set, remove_at, ltb, ℤ, is_zero,
}
use musicd.Memory.{Run, done, fault, aborted, ◌>>=◌, Ensures, Ensures-bind}
use musicd.Client.{Protocol, Client, client_new, client_process}
use musicd.Client.Steps.{IsLawful, IsWrite, received, IsOpen, Stepped}
use musicd.Client.Stream.{client_process-Stepped}
use musicd.Server.{
  PollFd, max_clients, Server, Polled, poll_error, no_events, ready, Kernel, entry, fill,
  build_pollfds, server_add_client, server_del_client, server_accept, find_client, after_process,
  serve_client, serve_clients, poll_round, poll_rounds, server_start,
}

-- The entry of the master socket.
abbrev pub master_entry : ℕ → PollFd
master_entry master_sock = record { fd = master_sock; pollin = true; pollout = false }

-- `write` takes no more than it is offered, on every round.
abbrev pub IsKernel : Option ℕ × Polled × Kernel → Type 0
IsKernel (accepted, polled, kernel) = (i : ℕ) → IsWrite (kernel.writes i)

-- `accept` fails in one of the rounds, when a client waits to be accepted.
abbrev pub HasFailed : List (Option ℕ × Polled × Kernel) → Type 0
HasFailed [] = ⊥
HasFailed ((accepted, polled, kernel) ∷ rounds) =
    ((accepted ≡ none) × ((revents : ℕ → Bool × Bool) × (polled ≡ ready true revents)))
    ⊎ HasFailed rounds

-- The run returns as stated, or it is aborted, and the reason holds.
abbrev pub Aborts : {A : Type 0} → Run A → (A → Type 0) → Type 0 → Type 0
Aborts (done a) P reason = P a
Aborts (fault e) P reason = (e ≡ aborted) × reason

Ensures-Aborts :
    {A : Type 0} (m : Run A) (P : A → Type 0) (reason : Type 0) → Ensures m P → Aborts m P reason
Ensures-Aborts (done a) P reason h = h
Ensures-Aborts (fault e) P reason h = absurd h

Ensures-bind_Aborts :
    {A B : Type 0} (m : Run A) (f : A → Run B) (P : A → Type 0) (Q : B → Type 0) (reason : Type 0)
    → Ensures m P
    → ((a : A) → P a → Aborts (f a) Q reason)
    → Aborts (m >>= f) Q reason
Ensures-bind_Aborts (done a) f P Q reason h k = k a h
Ensures-bind_Aborts (fault e) f P Q reason h k = absurd h

Aborts-bind :
    {A B : Type 0} (m : Run A) (f : A → Run B) (P : A → Type 0) (Q : B → Type 0)
    (now later : Type 0)
    → Aborts m P now
    → ((a : A) → P a → Aborts (f a) Q later)
    → Aborts (m >>= f) Q (now ⊎ later)
Aborts-bind (done a) f P Q now later h k = Aborts-later (f a) Q now later (k a h)
  where
    Aborts-later :
        {B : Type 0} (m : Run B) (Q : B → Type 0) (now later : Type 0)
        → Aborts m Q later
        → Aborts m Q (now ⊎ later)
    Aborts-later (done b) Q now later h = h
    Aborts-later (fault e) Q now later h = (h.0, inr h.1)
Aborts-bind (fault e) f P Q now later h k = (h.0, inl h.1)

module _ {Self Wait : Type 0} (task_pollfd : ℕ → ℕ) where
  -- The array has an entry for each client, made from it, in the order of the list, and behind them
  -- that of the master socket, and no more; `nb_clients` counts the clients, which are at most 1024.
  pub record IsSound (s : Server Self Wait) : Type 0 where
    pub counted : s.nb_clients ≡ length s.clients
    pub sized : s.poll_nfds ≡ s.nb_clients + 1
    pub in_step :
        s.poll_fds ≡ map (entry task_pollfd) s.clients ++ (master_entry s.master_sock ∷ [])
    pub few : s.nb_clients ≤ max_clients
    pub open_all : All IsOpen s.clients

  fill_lem :
      (master_sock : ℕ) (clients : List (Client Self Wait))
      → fill task_pollfd master_sock (suc (length clients)) clients
        ≡ done (map (entry task_pollfd) clients ++ (master_entry master_sock ∷ []))
  unfolding fill
  fill_lem master_sock [] = refl
  fill_lem master_sock (client ∷ clients) = rw (fill_lem master_sock clients) refl

  build_pollfds-IsSound :
      (s : Server Self Wait)
      → s.nb_clients ≡ length s.clients
      → s.nb_clients ≤ max_clients
      → All IsOpen s.clients
      → Ensures (build_pollfds task_pollfd s) IsSound
  unfolding build_pollfds
  build_pollfds-IsSound s n k o =
      let cells : s.nb_clients + 1 ≡ suc (length s.clients) = omega (arith, n) in
      let filled =
        ap (λ c. fill task_pollfd s.master_sock c s.clients) cells
        ∙ fill_lem s.master_sock s.clients in
      rw filled (record { counted = n; sized = refl; in_step = refl; few = k; open_all = o })

  server_add_client-IsSound :
      (client : Client Self Wait) (s : Server Self Wait)
      → IsSound s
      → s.nb_clients < max_clients
      → IsOpen client
      → Ensures (server_add_client task_pollfd client s) IsSound
  unfolding server_add_client
  server_add_client-IsSound client s v room o =
      build_pollfds-IsSound
        (record s { clients = s.clients ++ (client ∷ []); nb_clients = s.nb_clients + 1 })
        (omega (arith, v.counted, length-append {0} s.clients (client ∷ []))) (omega arith)
        (All-append IsOpen s.clients (client ∷ []) v.open_all (o, tt))

  client_new-IsOpen : (fd : ℕ) → IsOpen (client_new {Self = Self} {Wait = Wait} fd)
  unfolding client_new
  client_new-IsOpen fd p self e = absurd (cc e)

  server_accept-IsSound :
      (fd : ℕ) (s : Server Self Wait)
      → IsSound s
      → Ensures (server_accept task_pollfd (some fd) s) IsSound
  unfolding server_accept
  server_accept-IsSound fd s v = elim (Bool-cases (ltb max_clients (s.nb_clients + 1))) [
    | inl full ↦ rw full (record {
      counted = v.counted;
      sized = v.sized;
      in_step = v.in_step;
      few = v.few;
      open_all = v.open_all;
    })
    | inr room ↦
        rw room
          (server_add_client-IsSound (client_new fd) s v (ground arith) (client_new-IsOpen fd))
  ]

  -- Behind a client that was served the server is sound; no client left unless the loop ends.
  record ServedOn (s : Server Self Wait) (after : Bool × Server Self Wait) : Type 0 where
    sound : IsSound after.1
    same_length : after.0 ≡ true → length after.1.clients ≡ length s.clients

  after_process-IsSound :
      (i : ℕ) (result : ℤ) (client : Client Self Wait) (s : Server Self Wait)
      → IsSound s
      → i < length s.clients
      → IsOpen client
      → Ensures (after_process task_pollfd i (result, client) s) (ServedOn s)
  unfolding after_process server_del_client
  after_process-IsSound i result client s v h o = elim (Bool-cases (is_zero result)) [
    | inl stays ↦
        rw (stays, after_process)
          (record {
            sound = record {
              counted = v.counted ∙ sym (length-set s.clients i client);
              sized = v.sized;
              in_step =
                  ap (λ fds. set fds i (entry task_pollfd client)) v.in_step
                  ∙ set-append (map (entry task_pollfd) s.clients) (master_entry s.master_sock ∷ [])
                      i (entry task_pollfd client)
                      (omega (arith, h, length-map s.clients (entry task_pollfd)))
                  ∙ ap (λ fds. fds ++ (master_entry s.master_sock ∷ []))
                      (set-map (entry task_pollfd) s.clients i client);
              few = v.few;
              open_all = All-set IsOpen s.clients i client v.open_all o;
            };
            same_length = λ _. length-set s.clients i client;
          })
    | inr gone ↦
        rw (gone, after_process)
          (Ensures-bind
            (server_del_client task_pollfd i client (record s { clients = set s.clients i client }))
            (λ rest. done (false, rest)) IsSound (ServedOn s)
            (build_pollfds-IsSound
              (record s {
                clients = remove_at i (set s.clients i client);
                closed = client.fd ∷ s.closed;
                nb_clients = s.nb_clients - 1;
              })
              (omega (
                arith,
                v.counted,
                length-remove_at i (set s.clients i client)
                    (omega (arith, length-set s.clients i client)),
                length-set s.clients i client,
              ))
              (omega (arith, v.few))
              (All-remove_at IsOpen i (set s.clients i client)
                (All-set IsOpen s.clients i client v.open_all o)))
            (λ rest r. record { sound = r; same_length = λ e. absurd (cc e) }))
  ]

  carry_on :
      (go_on : Bool) (s : Server Self Wait) (rest : Run (Server Self Wait))
      → IsSound s
      → (go_on ≡ true → Ensures rest IsSound)
      → Ensures
          (elim go_on as (λ b. Run (Server Self Wait)) [ false ↦ done s | true ↦ rest ])
          IsSound
  carry_on false s rest v h = v
  carry_on true s rest v h = h refl

  module _ (protocols : List (Protocol Self Wait)) (lawful : All IsLawful protocols)
      (kernel : Kernel) (writes : (i : ℕ) → IsWrite (kernel.writes i)) where
    serve_client-IsSound :
        (i : ℕ) (s : Server Self Wait)
        → IsSound s
        → i < length s.clients
        → Ensures (serve_client task_pollfd protocols kernel i s) (ServedOn s)
    unfolding serve_client find_client
    serve_client-IsSound i s v h =
        let (client, at) = get_elem?-some s.clients i h in
        let now = record client { inbuf = client.inbuf ++ received (kernel.reads i) } in
        rw (at, find_client)
          (Ensures-bind (client_process protocols (kernel.reads i) (kernel.writes i) client)
            (λ processed. after_process task_pollfd i processed s) (λ r. Stepped now r.0 r.1)
            (ServedOn s)
            (client_process-Stepped protocols (kernel.reads i) (kernel.writes i) client lawful
              (All-get_elem? IsOpen s.clients i client v.open_all at) (writes i))
            (λ r t. after_process-IsSound i r.0 r.1 s v h t.is_open))

    serve_clients-IsSound :
        (revents : ℕ → Bool × Bool) (left i : ℕ) (s : Server Self Wait)
        → IsSound s
        → i + left ≤ length s.clients
        → Ensures (serve_clients task_pollfd protocols kernel revents left i s) IsSound
    unfolding serve_clients
    serve_clients-IsSound revents zero i s v h = v
    serve_clients-IsSound revents (suc left) i s v h =
        elim (Bool-cases ((revents i).0 || (revents i).1)) [
          | inr idle ↦
              rw (idle, serve_clients)
                (serve_clients-IsSound revents left (i + 1) s v (omega arith))
          | inl active ↦
              rw (active, serve_clients)
                (Ensures-bind (serve_client task_pollfd protocols kernel i s) _ (ServedOn s) IsSound
                  (serve_client-IsSound i s v (omega arith))
                  (λ after w. carry_on after.0 after.1 _ w.sound (λ e.
                    serve_clients-IsSound revents left (i + 1) after.1 w.sound
                      (omega (arith, w.same_length e)))))
        ]

    poll_round-IsSound :
        (accepted : Option ℕ) (polled : Polled) (s : Server Self Wait)
        → IsSound s
        → Aborts
            (poll_round task_pollfd protocols kernel accepted polled s)
            IsSound
            ((accepted ≡ none) × ((revents : ℕ → Bool × Bool) × (polled ≡ ready true revents)))
    unfolding poll_round server_accept
    poll_round-IsSound accepted poll_error s v = v
    poll_round-IsSound accepted no_events s v = v
    poll_round-IsSound none (ready true revents) s v = (refl, (refl, (revents, refl)))
    poll_round-IsSound (some fd) (ready true revents) s v =
        Ensures-Aborts (server_accept task_pollfd (some fd) s) IsSound _
          (server_accept-IsSound fd s v)
    poll_round-IsSound accepted (ready false revents) s v =
        Ensures-Aborts (serve_clients task_pollfd protocols kernel revents s.nb_clients 0 s) IsSound
          _ (serve_clients-IsSound revents s.nb_clients 0 s v (omega (arith, v.counted)))

  poll_rounds-IsSound :
      (protocols : List (Protocol Self Wait)) (rounds : List (Option ℕ × Polled × Kernel))
      (s : Server Self Wait)
      → All IsLawful protocols
      → All IsKernel rounds
      → IsSound s
      → Aborts (poll_rounds task_pollfd protocols rounds s) IsSound (HasFailed rounds)
  unfolding poll_rounds
  poll_rounds-IsSound protocols [] s l k v = v
  poll_rounds-IsSound protocols ((accepted, polled, kernel) ∷ rounds) s l (w, k) v =
      Aborts-bind (poll_round task_pollfd protocols kernel accepted polled s)
        (poll_rounds task_pollfd protocols rounds) IsSound IsSound _ (HasFailed rounds)
        (poll_round-IsSound protocols l kernel w accepted polled s v)
        (λ s' v'. poll_rounds-IsSound protocols rounds s' l k v')

  -- From its start on, whatever `poll` and the kernel answer and however clients come, go and
  -- finish, the process is aborted only if `accept` failed while a client was waiting, and there is
  -- no other fault; otherwise, after every number of rounds, the server's array is in step: it has an entry for each client at the client's place, with the descriptor and the events that
  -- the client asks for, then that of the master socket, and `poll_nfds` is its length; there are
  -- never more than 1024 clients. The protocols consume no more than they are given and only append
  -- to outgoing buffers; `write` takes no more than it is offered.
  pub server_start-poll_rounds :
      (master_sock : ℕ) (protocols : List (Protocol Self Wait))
      (rounds : List (Option ℕ × Polled × Kernel))
      → All IsLawful protocols
      → All IsKernel rounds
      → Aborts
          (server_start task_pollfd master_sock >>= poll_rounds task_pollfd protocols rounds)
          IsSound
          (HasFailed rounds)
  unfolding server_start
  server_start-poll_rounds master_sock protocols rounds l k =
      let idle_server : Server Self Wait = record {
        master_sock = master_sock;
        clients = [];
        poll_fds = [];
        poll_nfds = 1;
        nb_clients = 0;
        closed = [];
      } in
      Ensures-bind_Aborts (server_start task_pollfd master_sock)
        (poll_rounds task_pollfd protocols rounds) IsSound IsSound (HasFailed rounds)
        (build_pollfds-IsSound idle_server refl (omega arith) tt)
        (λ s v. poll_rounds-IsSound protocols rounds s l k v)
