-- ===== src/Server/Tests.antt =====
-- Rounds of the loop with clients of an echoing protocol.
use musicd.Base.{ℕ, Option, none, some, true, false, List, [], ◌∷◌, All}
use musicd.Memory.{◌>>=◌}
use musicd.Client.{chunk, took}
use musicd.Client.Tests.{echo, echo-IsLawful, takes_all-IsWrite}
use musicd.Server.{Polled, ready, no_events, Kernel, poll_rounds, server_start}
use musicd.Server.Poll.{IsSound, IsKernel, Aborts, HasFailed, server_start-poll_rounds}

abbrev kernel : Kernel
kernel = record { reads = λ i. chunk b'e' [] ∷ []; writes = λ i. took }

-- Two clients come, and both have something to read.
abbrev rounds : List (Option ℕ × Polled × Kernel)
rounds =
    (some 7, ready true (λ i. (false, false)), kernel)
    ∷ (some 8, ready true (λ i. (false, false)), kernel)
    ∷ (none, no_events, kernel)
    ∷ (none, ready false (λ i. (true, false)), kernel)
    ∷ []

rounds-IsKernel : All IsKernel rounds
rounds-IsKernel = (
  λ i. takes_all-IsWrite,
  (λ i. takes_all-IsWrite, (λ i. takes_all-IsWrite, (λ i. takes_all-IsWrite, tt))),
)

server_start-poll_rounds_example :
    Aborts
      (server_start (λ task. task) 3 >>= poll_rounds (λ task. task) (echo ∷ []) rounds)
      (IsSound (λ task. task))
      (HasFailed rounds)
server_start-poll_rounds_example =
    server_start-poll_rounds (λ task. task) 3 (echo ∷ []) rounds (echo-IsLawful, tt) rounds-IsKernel
