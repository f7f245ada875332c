-- ===== src/Client/Events.antt =====
-- src/client.c: how a connection ends, by draining or for want of a protocol.
use musicd.Base.{
  ℕ, ◌≡◌, refl, ap, ◌∙◌, true, false, List, [], ◌∷◌, ◌++◌, none, some, arith, drop, length, lt→ltb,
  ◌<◌, pos, negsuc, is_negative,
}
use musicd.Memory.{done, take_all}
use musicd.Client.{
  drain, Protocol, Client, Read, Write, took, read_all, write_data, find_protocol, open_from,
  wake_from, wake, purge, after_purge, serve, client_process, is_draining,
}
use musicd.Client.Steps.{received, read_all_lem, remove_front_lem}

drop_all {ℓ} : {A : Type ℓ} (xs : List A) → drop (length xs) xs ≡ []
drop_all [] = refl
drop_all (x ∷ xs) = drop_all xs

module _ {Self Wait : Type 0} where
  -- The client after everything was written.
  abbrev pub flushed : Client Self Wait → Client Self Wait
  flushed client = record client {
    connection = record client.connection { outbuf = [] };
    written = client.written ++ client.connection.outbuf;
  }

  purge-flushed :
      (write : ℕ → Write) (client : Client Self Wait)
      → 0 < length client.connection.outbuf
      → write (length client.connection.outbuf) ≡ took (length client.connection.outbuf)
      → purge write client ≡ done (pos 0, flushed client)
  unfolding purge write_data
  purge-flushed write client some_left e =
      let out = client.connection.outbuf in
      rw (lt→ltb 0 (length out) some_left) (
        rw e (
          rw (remove_front_lem out (length out) (omega arith))
            (rw (drop_all out) (rw (take_all (length out) out (omega arith)) refl))))

  serve-drain :
      (p : Protocol Self Wait) (self : Self) (write : ℕ → Write) (client : Client Self Wait)
      → client.connection.state ≡ drain
      → 0 < length client.connection.outbuf
      → write (length client.connection.outbuf) ≡ took (length client.connection.outbuf)
      → serve p self write client ≡ done (negsuc 0, flushed client)
  unfolding serve wake_from after_purge
  serve-drain p self write client draining some_left e =
      let asleep : wake p self client ≡ (pos 0, self, client) =
        ap (λ state. wake_from state p self client) draining in
      let finished : is_draining client.connection.state ≡ true = ap is_draining draining in
      rw (asleep, serve)
        (rw asleep (rw (purge-flushed write client some_left e) (rw (finished, after_purge) refl)))

  -- A client whose protocol ended the conversation by `client_drain` is closed by the call that writes
  -- the last of its outgoing bytes: `client_process` then returns -1, with every byte of the outgoing
  -- buffer written and none left, and the protocol is not called again.
  pub client_process-client_drain :
      (protocols : List (Protocol Self Wait)) (p : Protocol Self Wait) (self : Self)
      (reads : List Read) (write : ℕ → Write) (client : Client Self Wait)
      → client.protocol ≡ some (p, self)
      → client.connection.state ≡ drain
      → is_negative (read_all reads client).0 ≡ false
      → 0 < length client.connection.outbuf
      → write (length client.connection.outbuf) ≡ took (length client.connection.outbuf)
      → client_process protocols reads write client
        ≡ done (negsuc 0, flushed (record client { inbuf = client.inbuf ++ received reads }))
  unfolding client_process serve open_from wake_from after_purge
  client_process-client_drain protocols p self reads write client known draining going some_left e =
      let now = record client { inbuf = client.inbuf ++ received reads } in
      let served : serve p self write now ≡ done (negsuc 0, flushed now) =
        serve-drain p self write now draining some_left e in
      let found : open_from now.protocol (find_protocol protocols now.inbuf) now
          ≡ some (p, self, now) =
        ap (λ o. open_from o (find_protocol protocols now.inbuf) now) known in
      rw (going, client_process) (rw (read_all_lem reads client) (rw found served))

  -- A client without a protocol for whose bytes none is found.
  pub client_process-unknown :
      (protocols : List (Protocol Self Wait)) (reads : List Read) (write : ℕ → Write)
      (client : Client Self Wait)
      → client.protocol ≡ none
      → is_negative (read_all reads client).0 ≡ false
      → find_protocol protocols (client.inbuf ++ received reads) ≡ none
      → client_process protocols reads write client
        ≡ done (negsuc 0, record client { inbuf = client.inbuf ++ received reads })
  unfolding client_process open_from
  client_process-unknown protocols reads write client unknown going no_fit =
      let now = record client { inbuf = client.inbuf ++ received reads } in
      let found : open_from now.protocol (find_protocol protocols now.inbuf) now ≡ none =
        ap (λ o. open_from o (find_protocol protocols now.inbuf) now) unknown
        ∙ ap (λ o. open_from none o now) no_fit in
      rw (going, client_process)
        (rw (read_all_lem reads client) (rw found (rw (read_all_lem reads client) refl)))
