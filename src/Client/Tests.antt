-- ===== src/Client/Tests.antt =====
-- A protocol that echoes, and instances of the theorems.
use musicd.Base.{
  ℕ, ◌+◌, ◌≡◌, refl, List, [], ◌∷◌, ◌++◌, some, arith, codes, length, pos, negsuc, peek, ◌==◌,
  if◌then◌else◌,
}
use musicd.Memory.{done}
use musicd.Client.{
  normal, drain, Protocol, Client, Read, chunk, would_block, Write, took, client_write, client_new,
  client_process, read_all, read_data, find_protocol, open_from, wake_from, purge, write_data,
  advance, after_purge, serve, process_data, feed_data, remove_front,
}
use musicd.Client.Steps.{IsLawful, IsWrite, IsOpen, received, Returns, Stepped}
use musicd.Client.Stream.{client_process-Stepped}
use musicd.Client.Events.{flushed, client_process-client_drain}

-- Takes a text that begins with an e, answers each text with itself, and feeds a dot.
abbrev pub echo : Protocol ℕ ℕ
echo = record {
  detect = λ buf size. if peek buf == b'e' then pos 1 else negsuc 0;
  open_self = 0;
  process = λ self buf c. (pos (length buf), self + 1, client_write buf c);
  feed = λ self c. (pos 0, self, client_write (codes ".") c);
  call = λ callback self c. (pos 0, self + callback, client_write (codes "!") c);
}

pub echo-IsLawful : IsLawful echo
unfolding client_write
echo-IsLawful = record {
  consumes = λ self buf c n e. ground arith;
  process_appends = λ self buf c. (buf, refl);
  feed_appends = λ self c. (codes ".", refl);
  call_appends = λ callback self c. (codes "!", refl);
}

-- The kernel takes all that it is offered.
abbrev pub takes_all : ℕ → Write
takes_all = took

pub takes_all-IsWrite : IsWrite takes_all
takes_all-IsWrite size n e = ground arith

abbrev reads : List Read
reads = chunk b'e' (codes "cho") ∷ would_block ∷ []

client_new-IsOpen : IsOpen {Self = ℕ} {Wait = ℕ} (client_new 5)
unfolding client_new
client_new-IsOpen p self e = absurd (cc e)

client_process-Stepped_example :
    Returns (client_process (echo ∷ []) reads takes_all (client_new 5)) (
      Stepped (record (client_new 5) {
        inbuf = (client_new {Self = ℕ} {Wait = ℕ} 5).inbuf ++ received reads;
      }))
client_process-Stepped_example =
    client_process-Stepped (echo ∷ []) reads takes_all (client_new 5) (echo-IsLawful, tt)
      client_new-IsOpen takes_all-IsWrite

abbrev leaving : Client ℕ ℕ
leaving = record {
  fd = 5;
  inbuf = [];
  protocol = some (echo, 1);
  connection = record { outbuf = codes "bye"; state = drain };
  written = codes "hi ";
  freed = [];
}

client_process-client_drain_example :
    client_process (echo ∷ []) [] takes_all leaving
    ≡ done (negsuc 0, flushed (record leaving { inbuf = [] ++ received [] }))
unfolding read_all
client_process-client_drain_example =
    client_process-client_drain (echo ∷ []) echo 1 [] takes_all leaving refl refl refl (omega arith)
      refl

echoed :
    client_process (echo ∷ []) reads takes_all (client_new 5)
    ≡ done (
      pos 0,
      record {
        fd = 5;
        inbuf = [];
        protocol = some (echo, 1);
        connection = record { outbuf = codes "echo"; state = normal };
        written = [];
        freed = [];
      },
    )
unfolding client_process read_all read_data find_protocol open_from wake_from purge write_data
    advance after_purge serve process_data feed_data remove_front client_new client_write
echoed = refl
