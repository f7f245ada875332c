-- ===== src/Client.antt =====
-- src/client.c and the interface of src/protocol.h: one connection, its buffers and its states. The
-- buffers are the texts held. What the kernel answers to `read` and `write` is an argument. A protocol
-- is a record of its functions; a callback with its data is a value of `Wait`, which `call` runs. The
-- part of a client that a protocol's functions change (through `client_send`, `client_write`,
-- `client_start_feed`, `client_stop_feed`, `client_wait_task` and `client_drain`) is a `Connection`.
pub mod Stream
pub mod Steps
pub mod Events
pub mod Tests
use musicd.Base.{
  ℕ, zero, suc, ◌+◌, Bool, true, false, not, ◌&&◌, ◌||◌, List, [], ◌∷◌, ◌++◌, Option, none, some,
  ltb, leb, ◌==◌, if◌then◌else◌, Bytes, length, drop, take, ℤ, pos, negsuc, is_negative,
}
use musicd.Memory.{Run, done, fault, assert_failed, ◌>>=◌}

-- `wait_task`, `wait_callback` and `wait_data` are read only while the client waits: they are part of
-- that state.
pub data ClientState (Wait : Type 0) : Type 0 where
  normal feeding drain : ClientState Wait
  wait_task : ℕ → Wait → ClientState Wait

pub record Connection (Wait : Type 0) : Type 0 where
  pub outbuf : Bytes
  pub state : ClientState Wait

pub record Protocol (Self Wait : Type 0) : Type 0 where
  pub detect : Bytes → ℕ → ℤ
  pub open_self : Self
  pub process : Self → Bytes → Connection Wait → ℤ × Self × Connection Wait
  pub feed : Self → Connection Wait → ℤ × Self × Connection Wait
  pub call : Wait → Self → Connection Wait → ℤ × Self × Connection Wait

pub record Client (Self Wait : Type 0) : Type 0 where
  pub fd : ℕ
  pub inbuf : Bytes
  -- the protocol detected, and its own structure
  pub protocol : Option (Protocol Self Wait × Self)
  pub connection : Connection Wait
  -- the bytes that `write` took so far, and the tasks freed, latest first
  pub written : Bytes
  pub freed : List ℕ

-- What `read` gives: at least one byte and at most 1024, the end, EWOULDBLOCK or another error.
pub data Read : Type 0 where
  chunk : ℕ → Bytes → Read
  end_of_file would_block read_error : Read

-- What `write` gives, by the number of bytes offered: how many it took, EWOULDBLOCK or another error.
pub data Write : Type 0 where
  took : ℕ → Write
  not_now write_error : Write

-- `string_remove_front` on the text held.
unfoldable pub remove_front : Bytes → ℕ → Run Bytes
remove_front s n = if leb n (length s) then done (drop n s) else fault assert_failed

-- `client_send` and `client_write`: `client_send` appends the formatted text.
unfoldable pub client_write : {Wait : Type 0} → Bytes → Connection Wait → Connection Wait
client_write text c = record c { outbuf = c.outbuf ++ text }

unfoldable pub client_start_feed : {Wait : Type 0} → Connection Wait → Connection Wait
client_start_feed c = record c { state = feeding }

unfoldable pub client_stop_feed : {Wait : Type 0} → Connection Wait → Connection Wait
client_stop_feed c = record c { state = normal }

unfoldable pub client_wait_task : {Wait : Type 0} → ℕ → Wait → Connection Wait → Connection Wait
client_wait_task task callback c = record c { state = wait_task task callback }

unfoldable pub client_drain : {Wait : Type 0} → Connection Wait → Connection Wait
client_drain c = record c { state = drain }

-- `i == 1`
abbrev pub is_one : ℤ → Bool
is_one (pos n) = n == 1
is_one (negsuc n) = false

abbrev pub is_draining : {Wait : Type 0} → ClientState Wait → Bool
is_draining drain = true
is_draining _ = false

abbrev pub is_feeding : {Wait : Type 0} → ClientState Wait → Bool
is_feeding feeding = true
is_feeding _ = false

abbrev pub is_empty : Bytes → Bool
is_empty [] = true
is_empty (c ∷ s) = false

module _ {Self Wait : Type 0} where
  unfoldable pub client_new : ℕ → Client Self Wait
  client_new fd = record {
    fd = fd;
    inbuf = [];
    protocol = none;
    connection = record { outbuf = []; state = normal };
    written = [];
    freed = [];
  }

  -- The result of `read_data`, and the client.
  unfoldable pub read_data : Read → Client Self Wait → ℤ × Client Self Wait
  read_data (chunk c s) client =
      (pos (suc (length s)), record client { inbuf = client.inbuf ++ (c ∷ s) })
  read_data end_of_file client = (negsuc 0, client)
  read_data would_block client = (pos 0, client)
  read_data read_error client = (negsuc 0, client)

  -- `while ((result = read_data(client)) > 0) { }`; a list that ends stands for EWOULDBLOCK.
  unfoldable pub read_all : List Read → Client Self Wait → ℤ × Client Self Wait
  unfolding read_data
  read_all [] client = (pos 0, client)
  read_all (read ∷ reads) client =
      let (result, client') = read_data read client in
      elim result [
        | pos zero ↦ (pos 0, client')
        | pos (suc n) ↦ read_all reads client'
        | negsuc n ↦ (negsuc n, client')
      ]

  -- The result is -1 where `write` failed.
  unfoldable pub write_data : Write → Client Self Wait → Run (ℤ × Client Self Wait)
  write_data (took n) client = do
    rest ← remove_front client.connection.outbuf n
    done (
      pos 0,
      record client {
        connection = record client.connection { outbuf = rest };
        written = client.written ++ take n client.connection.outbuf;
      },
    )
  write_data not_now client = done (pos 0, client)
  write_data write_error client = done (negsuc 0, client)

  unfoldable pub find_protocol : List (Protocol Self Wait) → Bytes → Option (Protocol Self Wait)
  find_protocol [] inbuf = none
  find_protocol (protocol ∷ protocols) inbuf =
      if is_one (protocol.detect inbuf (length inbuf))
      then some protocol
      else find_protocol protocols inbuf

  -- A client without a protocol is opened with the one that was found, if any.
  unfoldable pub open_from :
      Option (Protocol Self Wait × Self)
      → Option (Protocol Self Wait)
      → Client Self Wait
      → Option (Protocol Self Wait × Self × Client Self Wait)
  open_from (some (protocol, self)) found client = some (protocol, self, client)
  open_from none none client = none
  open_from none (some protocol) client = some (
    protocol,
    protocol.open_self,
    record client { protocol = some (protocol, protocol.open_self) },
  )

  abbrev pub open_protocol :
      List (Protocol Self Wait)
      → Client Self Wait
      → Option (Protocol Self Wait × Self × Client Self Wait)
  open_protocol protocols client =
      open_from client.protocol (find_protocol protocols client.inbuf) client

  -- Puts back what a protocol's function made of its structure and the connection.
  abbrev pub put : Protocol Self Wait → Self → Connection Wait → Client Self Wait → Client Self Wait
  put protocol self connection client = record client {
    protocol = some (protocol, self);
    connection = connection;
  }

  -- The task has finished: the client goes on, and its callback is called.
  unfoldable pub wake_from :
      ClientState Wait → Protocol Self Wait → Self → Client Self Wait → ℤ × Self × Client Self Wait
  wake_from (wait_task task callback) protocol self client =
      let (result, self', connection) =
        protocol.call callback self (record client.connection { state = normal }) in
      (result, self', record (put protocol self' connection client) { freed = task ∷ client.freed })
  wake_from _ protocol self client = (pos 0, self, client)

  abbrev pub wake : Protocol Self Wait → Self → Client Self Wait → ℤ × Self × Client Self Wait
  wake protocol self client = wake_from client.connection.state protocol self client

  unfoldable pub purge : (ℕ → Write) → Client Self Wait → Run (ℤ × Client Self Wait)
  unfolding write_data
  purge write client =
      let size = length client.connection.outbuf in
      if ltb 0 size then write_data (write size) client else done (pos 0, client)

  -- `protocol->process` on the unprocessed data.
  unfoldable pub process_data :
      Protocol Self Wait → Self → Client Self Wait → Run (ℤ × Client Self Wait)
  process_data protocol self client =
      let (result, self', connection) = protocol.process self client.inbuf client.connection in
      let client' = put protocol self' connection client in
      elim result [
        | negsuc n ↦ done (negsuc n, client')
        | pos n ↦ do
          rest ← remove_front client.inbuf n
          done (pos 0, record client' { inbuf = rest })
      ]

  unfoldable pub feed_data : Protocol Self Wait → Self → Client Self Wait → ℤ × Client Self Wait
  feed_data protocol self client =
      let (result, self', connection) = protocol.feed self client.connection in
      (if is_negative result then result else pos 0, put protocol self' connection client)

  -- The last step: unprocessed data goes to the protocol, or the protocol feeds.
  unfoldable pub advance : Protocol Self Wait → Self → Client Self Wait → Run (ℤ × Client Self Wait)
  unfolding process_data feed_data
  advance protocol self client =
      let feeds = is_feeding client.connection.state && is_empty client.connection.outbuf in
      if ltb 0 (length client.inbuf)
      then process_data protocol self client
      else if feeds
      then done (feed_data protocol self client)
      else done (pos 0, client)

  -- What follows the writing: a client that has drained ends, any other goes on.
  unfoldable pub after_purge :
      Protocol Self Wait → Self → ℤ × Client Self Wait → Run (ℤ × Client Self Wait)
  unfolding advance
  after_purge protocol self (result, client) =
      let finished = is_draining client.connection.state && is_empty client.connection.outbuf in
      elim (is_negative result) [
        | true ↦ done (result, client)
        | false ↦ elim finished [
          | true ↦ done (negsuc 0, client)
          | false ↦ advance protocol self client
        ]
      ]

  -- From the callback on, for a client whose protocol is known.
  unfoldable pub serve :
      Protocol Self Wait → Self → (ℕ → Write) → Client Self Wait → Run (ℤ × Client Self Wait)
  unfolding wake_from purge after_purge
  serve protocol self write client =
      let (woken, self', client') = wake protocol self client in
      elim (is_negative woken) [
        | true ↦ done (negsuc 0, client')
        | false ↦ purge write client' >>= after_purge protocol self'
      ]

  -- The result, 0 or negative, and the client.
  unfoldable pub client_process :
      List (Protocol Self Wait)
      → List Read
      → (ℕ → Write)
      → Client Self Wait
      → Run (ℤ × Client Self Wait)
  unfolding read_all open_from find_protocol serve
  client_process protocols reads write client =
      let (result, received) = read_all reads client in
      elim (is_negative result) [
        | true ↦ done (result, received)
        | false ↦ elim (open_protocol protocols received) [
          | none ↦ done (negsuc 0, received)
          | some (protocol, self, opened) ↦ serve protocol self write opened
        ]
      ]

  -- `task_pollfd` gives the file descriptor of a task's pipe.
  unfoldable pub client_poll_fd : (ℕ → ℕ) → Client Self Wait → ℕ
  client_poll_fd task_pollfd client = elim client.connection.state [
    | wait_task task callback ↦ task_pollfd task
    | _ ↦ client.fd
  ]

  -- Whether POLLIN and POLLOUT are asked for.
  unfoldable pub client_poll_events : Client Self Wait → Bool × Bool
  client_poll_events client =
      let state = client.connection.state in
      (
        not (is_draining state),
        ltb 0 (length client.connection.outbuf) || (is_feeding state || is_draining state),
      )

  unfoldable pub client_has_data : Client Self Wait → Bool
  client_has_data client =
      ltb 0 (length client.connection.outbuf) || is_feeding client.connection.state
