-- ===== src/Client/Stream.antt =====
-- src/client.c: `client_process` as a whole, and the bytes that go through it.
use mathlib.Core.Path.{subst}
use mathlib.Core.Option
use musicd.Base.{
  ℕ, ◌≡◌, refl, sym, ◌∙◌, ◌&&◌, List, [], ◌∷◌, ◌++◌, Option, none, some, ◌⊎◌, inl, inr, Bool-cases,
  length, All, Bytes, ℤ, is_negative,
}
use musicd.Client.{
  Protocol, Client, Read, Write, read_all, find_protocol, open_from, wake, purge, advance, serve,
  after_purge, client_process, is_draining, is_empty, is_one, put,
}
use musicd.Client.Steps.{
  IsLawful, IsWrite, received, Served, Served-refl, Served-trans, Returns, Returns-bind,
  Returns-weaken, Kept, IsOpen, Stepped, purge-Kept, advance-Stepped, wake-Woken, read_all_lem,
}

module _ {Self Wait : Type 0} where
  Stepped-trans :
      (a b : Client Self Wait) (result : ℤ) (c : Client Self Wait)
      → Served a b
      → b.inbuf ≡ a.inbuf
      → Stepped b result c
      → Stepped a result c
  Stepped-trans a b result c s same t = record {
    served = Served-trans s same t.served;
    is_open = t.is_open;
    not_positive = t.not_positive;
  }

  after_purge-Stepped :
      (p : Protocol Self Wait) (self : Self) (client client' : Client Self Wait) (result : ℤ)
      → IsLawful p
      → Served client client'
      → client'.inbuf ≡ client.inbuf
      → IsOpen client'
      → Returns (after_purge p self (result, client')) (Stepped client)
  unfolding after_purge
  after_purge-Stepped p self client client' result l s same o =
      elim (Bool-cases (is_negative result)) [
        | inl failed ↦
            rw (failed, after_purge) (record { served = s; is_open = o; not_positive = inr failed })
        | inr written ↦
            rw (written, after_purge)
              (elim (Bool-cases
                (is_draining client'.connection.state && is_empty client'.connection.outbuf)) [
                  | inl finished ↦
                      rw finished (record { served = s; is_open = o; not_positive = inr refl })
                  | inr going ↦ rw going (
                      Returns-weaken (advance p self client') (Stepped client') (Stepped client)
                        (advance-Stepped p self client' l o)
                        (λ result client'' t.
                          Stepped-trans client client' result client'' s same t))
                ])
      ]

  pub serve-Stepped :
      (p : Protocol Self Wait) (self : Self) (write : ℕ → Write) (client : Client Self Wait)
      → IsLawful p
      → IsOpen client
      → IsWrite write
      → Returns (serve p self write client) (Stepped client)
  unfolding serve
  serve-Stepped p self write client l o w =
      let self' = (wake p self client).1 in
      let client' = (wake p self client).2 in
      let woken = wake-Woken p self client l o in
      elim (Bool-cases (is_negative (wake p self client).0)) [
        | inl failed ↦
            rw (failed, serve)
              (record { served = woken.served; is_open = woken.is_open; not_positive = inr refl })
        | inr going ↦
            rw (going, serve)
              (Returns-bind (purge write client') (after_purge p self') (Kept client')
                (Stepped client) (purge-Kept write client' w)
                (λ result client'' k.
                  after_purge-Stepped p self' client client'' result l
                    (Served-trans woken.served woken.same_inbuf k.served)
                    (k.same_inbuf ∙ woken.same_inbuf)
                    (λ q t e. woken.is_open q t (sym k.same_protocol ∙ e))))
      ]

  Served-protocol :
      (client : Client Self Wait) (protocol : Option (Protocol Self Wait × Self))
      → Served client (record client { protocol = protocol })
  Served-protocol client protocol =
      let same = Served-refl client in
      record {
        sent = same.sent;
        outgoing_is = same.outgoing_is;
        consumed = same.consumed;
        no_more = same.no_more;
        inbuf_is = same.inbuf_is;
      }

  find_protocol-IsLawful :
      (protocols : List (Protocol Self Wait)) (inbuf : Bytes) (p : Protocol Self Wait)
      → All IsLawful protocols
      → find_protocol protocols inbuf ≡ some p
      → IsLawful p
  unfolding find_protocol
  find_protocol-IsLawful [] inbuf p l e = absurd (cc e)
  find_protocol-IsLawful (q ∷ protocols) inbuf p (l, ls) e =
      elim (Bool-cases (is_one (q.detect inbuf (length inbuf)))) [
        | inl found ↦
            let same : q ≡ p = Option.some-injective _ _ (rw found at e) in subst IsLawful same l
        | inr other ↦ find_protocol-IsLawful protocols inbuf p ls (rw other at e)
      ]

  -- What `client_process` goes on with, once a protocol is known.
  record Opened (client : Client Self Wait) (p : Protocol Self Wait) (opened : Client Self Wait)
      : Type 0 where
    lawful : IsLawful p
    served : Served client opened
    same_inbuf : opened.inbuf ≡ client.inbuf
    is_open : IsOpen opened

  open_from-Opened :
      (protocol : Option (Protocol Self Wait × Self)) (found : Option (Protocol Self Wait))
      (client : Client Self Wait)
      → client.protocol ≡ protocol
      → ((p : Protocol Self Wait) → found ≡ some p → IsLawful p)
      → IsOpen client
      → (open_from protocol found client ≡ none)
        ⊎ ((p : Protocol Self Wait) × (self : Self) × (opened : Client Self Wait) × (open_from
                protocol found client
              ≡ some (p, self, opened))
            × Opened client p opened)
  unfolding open_from
  open_from-Opened (some (p, self)) found client e l o = inr (
    p,
    self,
    client,
    refl,
    record { lawful = o p self e; served = Served-refl client; same_inbuf = refl; is_open = o },
  )
  open_from-Opened none none client e l o = inl refl
  open_from-Opened none (some p) client e l o = inr (
    p,
    p.open_self,
    put p p.open_self client.connection client,
    refl,
    record {
      lawful = l p refl;
      served = Served-protocol client _;
      same_inbuf = refl;
      is_open = λ q t same. subst IsLawful (cc same) (l p refl);
    },
  )

-- `client_process` always returns, with 0 or a negative result, whatever the kernel answers. The bytes
-- received are appended to the unprocessed ones and a front of these is consumed; of the bytes sent
-- to the client, those that the kernel took and those that wait are the ones before, in their order,
-- with the new ones behind. The protocols consume no more than they are given and only append to the
-- outgoing buffer; `write` takes no more than it is offered.
pub client_process-Stepped :
    {Self Wait : Type 0} (protocols : List (Protocol Self Wait)) (reads : List Read)
    (write : ℕ → Write) (client : Client Self Wait)
    → All IsLawful protocols
    → IsOpen client
    → IsWrite write
    → Returns
        (client_process protocols reads write client)
        (Stepped (record client { inbuf = client.inbuf ++ received reads }))
unfolding client_process
client_process-Stepped protocols reads write client ls o w =
    let now = record client { inbuf = client.inbuf ++ received reads } in
    let all_read : (read_all reads client).1 ≡ now = read_all_lem reads client in
    elim (Bool-cases (is_negative (read_all reads client).0)) [
      | inl gone ↦
          rw (gone, client_process)
            (rw all_read
              (record { served = Served-refl now; is_open = o; not_positive = inr gone }))
      | inr going ↦
          rw (going, client_process)
            (rw all_read
              (elim (open_from-Opened now.protocol (find_protocol protocols now.inbuf) now refl
                (λ p e. find_protocol-IsLawful protocols now.inbuf p ls e) o) [
                  | inl unknown ↦ rw unknown (
                      rw all_read
                        (record { served = Served-refl now; is_open = o; not_positive = inr refl }))
                  | inr (p, self, opened, e, q) ↦ rw e (
                      Returns-weaken (serve p self write opened) (Stepped opened) (Stepped now)
                        (serve-Stepped p self write opened q.lawful q.is_open w)
                        (λ result client' t.
                          Stepped-trans now opened result client' q.served q.same_inbuf t))
                ]))
    ]
