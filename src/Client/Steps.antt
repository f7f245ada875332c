-- ===== src/Client/Steps.antt =====
-- The steps of `client_process`, one by one: what each keeps of the bytes that came in and of those
-- that go out.
use mathlib.Core.Path.{subst}
use musicd.Base.{
  ℕ, ◌≤◌, ◌≡◌, refl, sym, ap, ◌∙◌, true, ◌&&◌, List, [], ◌∷◌, ◌++◌, some, ◌⊎◌, inl, inr, arith,
  Bool-cases, append_assoc, append-nil, take, drop, take-append-drop, length, le→leb, ltb,
  if◌then◌else◌, Bytes, ℤ, ℤ-cases, pos, negsuc, is_negative,
}
use musicd.Memory.{Run, done, ◌>>=◌, Ensures, Ensures-bind, Ensures-weaken}
use musicd.Client.{
  ClientState, normal, feeding, drain, wait_task, Connection, Protocol, Client, Read, chunk,
  end_of_file, would_block, read_error, Write, took, not_now, write_error, remove_front, put,
  read_data, read_all, write_data, wake, wake_from, purge, process_data, feed_data, advance,
  is_feeding, is_empty,
}

-- What the protocol's functions promise: to consume no more than they were given, and to touch the
-- outgoing buffer only by appending to it.
pub record IsLawful {Self Wait : Type 0} (p : Protocol Self Wait) : Type 0 where
  pub consumes :
      (self : Self) (buf : Bytes) (c : Connection Wait) (n : ℕ)
      → (p.process self buf c).0 ≡ pos n
      → n ≤ length buf
  pub process_appends :
      (self : Self) (buf : Bytes) (c : Connection Wait)
      → (added : Bytes) × ((p.process self buf c).2.outbuf ≡ c.outbuf ++ added)
  pub feed_appends :
      (self : Self) (c : Connection Wait)
      → (added : Bytes) × ((p.feed self c).2.outbuf ≡ c.outbuf ++ added)
  pub call_appends :
      (callback : Wait) (self : Self) (c : Connection Wait)
      → (added : Bytes) × ((p.call callback self c).2.outbuf ≡ c.outbuf ++ added)

-- `write` takes no more than it is offered.
abbrev pub IsWrite : (ℕ → Write) → Type 0
IsWrite write = (size n : ℕ) → write size ≡ took n → n ≤ size

-- The bytes read before the kernel has no more.
abbrev pub received : List Read → Bytes
received [] = []
received (chunk c s ∷ reads) = (c ∷ s) ++ received reads
received (end_of_file ∷ reads) = []
received (would_block ∷ reads) = []
received (read_error ∷ reads) = []

pub remove_front_lem : (s : Bytes) (n : ℕ) → n ≤ length s → remove_front s n ≡ done (drop n s)
unfolding remove_front
remove_front_lem s n h = rw (le→leb n (length s) h) refl

negative_or_zero :
    (i : ℤ)
    → ((if is_negative i then i else pos 0) ≡ pos 0)
      ⊎ (is_negative (if is_negative i then i else pos 0) ≡ true)
negative_or_zero (pos n) = inl refl
negative_or_zero (negsuc n) = inr refl

module _ {Self Wait : Type 0} where
  -- All that was ever sent to the client: what the kernel took, and what waits.
  abbrev pub outgoing : Client Self Wait → Bytes
  outgoing client = client.written ++ client.connection.outbuf

  -- Nothing that was sent is lost, changed or reordered; `client'` has sent more behind it. Of the
  -- unprocessed data a front was consumed.
  pub record Served (client client' : Client Self Wait) : Type 0 where
    pub sent : Bytes
    pub outgoing_is : outgoing client' ≡ outgoing client ++ sent
    pub consumed : ℕ
    pub no_more : consumed ≤ length client.inbuf
    pub inbuf_is : client'.inbuf ≡ drop consumed client.inbuf

  pub Served-refl : (client : Client Self Wait) → Served client client
  Served-refl client = record {
    sent = [];
    outgoing_is = sym (append-nil (outgoing client));
    consumed = 0;
    no_more = omega arith;
    inbuf_is = refl;
  }

  -- A change of the outgoing bytes alone.
  pub Served-sent :
      (client client' : Client Self Wait) (sent : Bytes)
      → outgoing client' ≡ outgoing client ++ sent
      → client'.inbuf ≡ client.inbuf
      → Served client client'
  Served-sent client client' sent o i = record {
    sent = sent;
    outgoing_is = o;
    consumed = 0;
    no_more = omega arith;
    inbuf_is = i;
  }

  -- What is behind in time may consume.
  pub Served-trans :
      {a b c : Client Self Wait} → Served a b → b.inbuf ≡ a.inbuf → Served b c → Served a c
  Served-trans {a} {b} {c} s same t = record {
    sent = s.sent ++ t.sent;
    outgoing_is =
        t.outgoing_is
        ∙ ap (λ o. o ++ t.sent) s.outgoing_is
        ∙ append_assoc (outgoing a) s.sent t.sent;
    consumed = t.consumed;
    no_more = omega (arith, t.no_more, ap length same);
    inbuf_is = t.inbuf_is ∙ ap (drop t.consumed) same;
  }

  pub read_all_lem :
      (reads : List Read) (client : Client Self Wait)
      → (read_all reads client).1 ≡ record client { inbuf = client.inbuf ++ received reads }
  unfolding read_all read_data
  read_all_lem [] client = ap (λ b. record client { inbuf = b }) (sym (append-nil client.inbuf))
  read_all_lem (chunk c s ∷ reads) client =
      read_all_lem reads (record client { inbuf = client.inbuf ++ (c ∷ s) })
      ∙ ap (λ b. record client { inbuf = b }) (append_assoc client.inbuf (c ∷ s) (received reads))
  read_all_lem (end_of_file ∷ reads) client =
      ap (λ b. record client { inbuf = b }) (sym (append-nil client.inbuf))
  read_all_lem (would_block ∷ reads) client =
      ap (λ b. record client { inbuf = b }) (sym (append-nil client.inbuf))
  read_all_lem (read_error ∷ reads) client =
      ap (λ b. record client { inbuf = b }) (sym (append-nil client.inbuf))

  -- The run returns, with a result and a client as stated.
  abbrev pub Returns : Run (ℤ × Client Self Wait) → (ℤ → Client Self Wait → Type 0) → Type 0
  Returns m P = Ensures m (λ returned. P returned.0 returned.1)

  pub Returns-bind :
      (m : Run (ℤ × Client Self Wait)) (f : ℤ × Client Self Wait → Run (ℤ × Client Self Wait))
      (P Q : ℤ → Client Self Wait → Type 0)
      → Returns m P
      → ((result : ℤ) (client : Client Self Wait)
          → P result client
          → Returns (f (result, client)) Q)
      → Returns (m >>= f) Q
  Returns-bind m f P Q h k =
      Ensures-bind m f (λ r. P r.0 r.1) (λ r. Q r.0 r.1) h (λ r p. k r.0 r.1 p)

  pub Returns-weaken :
      (m : Run (ℤ × Client Self Wait)) (P Q : ℤ → Client Self Wait → Type 0)
      → Returns m P
      → ((result : ℤ) (client : Client Self Wait) → P result client → Q result client)
      → Returns m Q
  Returns-weaken m P Q h k =
      Ensures-weaken m (λ r. P r.0 r.1) (λ r. Q r.0 r.1) h (λ r p. k r.0 r.1 p)

  -- A step that leaves the unprocessed data and the protocol.
  pub record Kept (client : Client Self Wait) (result : ℤ) (client' : Client Self Wait)
      : Type 0 where
    pub served : Served client client'
    pub same_inbuf : client'.inbuf ≡ client.inbuf
    pub same_protocol : client'.protocol ≡ client.protocol

  Kept-refl : (client : Client Self Wait) (result : ℤ) → Kept client result client
  Kept-refl client result = record {
    served = Served-refl client;
    same_inbuf = refl;
    same_protocol = refl;
  }

  write_data-Kept :
      (answer : Write) (client : Client Self Wait)
      → ((n : ℕ) → answer ≡ took n → n ≤ length client.connection.outbuf)
      → Returns (write_data answer client) (Kept client)
  unfolding write_data
  write_data-Kept (took n) client h =
      let out = client.connection.outbuf in
      rw (remove_front_lem out n (h n refl)) (record {
        served =
            Served-sent client _ []
              (append_assoc client.written (take n out) (drop n out)
                ∙ ap (λ o. client.written ++ o) (take-append-drop n out)
                ∙ sym (append-nil (client.written ++ out)))
              refl;
        same_inbuf = refl;
        same_protocol = refl;
      })
  write_data-Kept not_now client h = Kept-refl client (pos 0)
  write_data-Kept write_error client h = Kept-refl client (negsuc 0)

  pub purge-Kept :
      (write : ℕ → Write) (client : Client Self Wait)
      → IsWrite write
      → Returns (purge write client) (Kept client)
  unfolding purge
  purge-Kept write client w = elim (Bool-cases (ltb 0 (length client.connection.outbuf))) [
    | inl some_left ↦ rw some_left (
        write_data-Kept (write (length client.connection.outbuf)) client
          (λ n e. w (length client.connection.outbuf) n e))
    | inr none_left ↦ rw none_left (Kept-refl client (pos 0))
  ]

  -- A call of a protocol's function that appended.
  Served-appended :
      (p : Protocol Self Wait) (self : Self) (c : Connection Wait) (client : Client Self Wait)
      → (added : Bytes) × (c.outbuf ≡ client.connection.outbuf ++ added)
      → Served client (put p self c client)
  Served-appended p self c client (added, e) =
      Served-sent client (put p self c client) added
        (ap (λ o. client.written ++ o) e
          ∙ sym (append_assoc client.written client.connection.outbuf added))
        refl

  pub feed_data-Served :
      (p : Protocol Self Wait) (self : Self) (client : Client Self Wait)
      → IsLawful p
      → Served client (feed_data p self client).1
  unfolding feed_data
  feed_data-Served p self client l =
      Served-appended p ((p.feed self client.connection).1) ((p.feed self client.connection).2)
        client (l.feed_appends self client.connection)

  -- Consuming a front of the unprocessed data, behind a step that kept it.
  Served-consumed :
      (client client' : Client Self Wait) (n : ℕ)
      → Served client client'
      → client'.inbuf ≡ client.inbuf
      → n ≤ length client.inbuf
      → Served client (record client' { inbuf = drop n client.inbuf })
  Served-consumed client client' n s same h = record {
    sent = s.sent;
    outgoing_is = s.outgoing_is;
    consumed = n;
    no_more = h;
    inbuf_is = refl;
  }

  -- The protocol is known to be lawful, and stays so.
  abbrev pub IsOpen : Client Self Wait → Type 0
  IsOpen client =
      (p : Protocol Self Wait) (self : Self) → client.protocol ≡ some (p, self) → IsLawful p

  put-IsOpen :
      (p : Protocol Self Wait) (self : Self) (c : Connection Wait) (client : Client Self Wait)
      → IsLawful p
      → IsOpen (put p self c client)
  put-IsOpen p self c client l q t e = subst IsLawful (cc e) l

  -- The result of a step is 0 or negative, and what the client sent and consumed is accounted for.
  pub record Stepped (client : Client Self Wait) (result : ℤ) (client' : Client Self Wait)
      : Type 0 where
    pub served : Served client client'
    pub is_open : IsOpen client'
    pub not_positive : (result ≡ pos 0) ⊎ (is_negative result ≡ true)

  process_data-Stepped :
      (p : Protocol Self Wait) (self : Self) (client : Client Self Wait)
      → IsLawful p
      → Returns (process_data p self client) (Stepped client)
  unfolding process_data
  process_data-Stepped p self client l =
      let self' = (p.process self client.inbuf client.connection).1 in
      let c = (p.process self client.inbuf client.connection).2 in
      let grown =
        Served-appended p self' c client (l.process_appends self client.inbuf client.connection) in
      elim (ℤ-cases ((p.process self client.inbuf client.connection).0)) [
        | inl (n, e) ↦
            let few = l.consumes self client.inbuf client.connection n e in
            rw (e, process_data)
              (rw (remove_front_lem client.inbuf n few) (record {
                served = Served-consumed client (put p self' c client) n grown refl few;
                is_open = put-IsOpen p self' c client l;
                not_positive = inl refl;
              }))
        | inr (n, e) ↦
            rw (e, process_data)
              (record {
                served = grown;
                is_open = put-IsOpen p self' c client l;
                not_positive = inr refl;
              })
      ]

  pub advance-Stepped :
      (p : Protocol Self Wait) (self : Self) (client : Client Self Wait)
      → IsLawful p
      → IsOpen client
      → Returns (advance p self client) (Stepped client)
  unfolding advance
  advance-Stepped p self client l o = elim (Bool-cases (ltb 0 (length client.inbuf))) [
    | inl unread ↦ rw unread (process_data-Stepped p self client l)
    | inr none_left ↦
        rw none_left
          (elim (Bool-cases
            (is_feeding client.connection.state && is_empty client.connection.outbuf)) [
              | inl feeds ↦ rw feeds (record {
                served = feed_data-Served p self client l;
                is_open =
                    unfold feed_data in
                    put-IsOpen p ((p.feed self client.connection).1)
                      ((p.feed self client.connection).2) client l;
                not_positive =
                    unfold feed_data in negative_or_zero ((p.feed self client.connection).0);
              })
              | inr idle ↦
                  rw idle
                    (record { served = Served-refl client; is_open = o; not_positive = inl refl })
            ])
  ]

  -- What stands before the unprocessed data is looked at.
  pub record Woken (client client' : Client Self Wait) : Type 0 where
    pub served : Served client client'
    pub same_inbuf : client'.inbuf ≡ client.inbuf
    pub is_open : IsOpen client'

  Served-freed :
      (a b : Client Self Wait) (tasks : List ℕ) → Served a b → Served a (record b { freed = tasks })
  Served-freed a b tasks s = record {
    sent = s.sent;
    outgoing_is = s.outgoing_is;
    consumed = s.consumed;
    no_more = s.no_more;
    inbuf_is = s.inbuf_is;
  }

  wake_from-Woken :
      (state : ClientState Wait) (p : Protocol Self Wait) (self : Self) (client : Client Self Wait)
      → IsLawful p
      → IsOpen client
      → Woken client (wake_from state p self client).2
  unfolding wake_from
  wake_from-Woken (wait_task task callback) p self client l o =
      let c = record client.connection { state = normal } in
      let grown =
        Served-appended p ((p.call callback self c).1) ((p.call callback self c).2) client
          (l.call_appends callback self c) in
      record {
        served = Served-freed client _ _ grown;
        same_inbuf = refl;
        is_open = put-IsOpen p ((p.call callback self c).1) ((p.call callback self c).2) client l;
      }
  wake_from-Woken normal p self client l o = record {
    served = Served-refl client;
    same_inbuf = refl;
    is_open = o;
  }
  wake_from-Woken feeding p self client l o = record {
    served = Served-refl client;
    same_inbuf = refl;
    is_open = o;
  }
  wake_from-Woken drain p self client l o = record {
    served = Served-refl client;
    same_inbuf = refl;
    is_open = o;
  }

  pub wake-Woken :
      (p : Protocol Self Wait) (self : Self) (client : Client Self Wait)
      → IsLawful p
      → IsOpen client
      → Woken client (wake p self client).2
  wake-Woken p self client = wake_from-Woken client.connection.state p self client
