-- ===== src/Oracle/Exex/Tests.antt =====
-- Tests and witnesses for oracle/src/exex.rs.
use Prim.Native.Nat.{ℕ, ◌+◌}
use mathlib.Core.Path.{◌≡◌}
use mathlib.Core.List.{List, [], ◌∷◌, ◌++◌}
use reth_exex_examples.Common.Results.{Result, ok, err}
use reth_exex_examples.ExEx.{Notification}
use reth_exex_examples.ExEx.Samples.{methods}
use reth_exex_examples.Loops.InMemory
use reth_exex_examples.Loops.InMemory.{Outcomes}
use reth_exex_examples.Oracle.Exex.{ExEx, poll}
use reth_exex_examples.Oracle.Exex.InMemory.{poll-same}

-- A chain is its first number; the outcome is the list of the numbers.
abbrev outcomes : Outcomes ℕ (List ℕ)
outcomes = record {
  first_number = λ c. c;
  tip = λ c. (c, c + 100);
  execution_outcome = λ c. c ∷ [];
  default = [];
  revert_to = λ n state. [];
  extend = λ state added. state ++ added;
}

abbrev stream : List (Result ℕ (Notification ℕ))
stream =
    ok (Notification.chain_committed 5)
    ∷ ok (Notification.chain_reorged 5 5)
    ∷ err 9
    ∷ ok (Notification.chain_reverted 5)
    ∷ []

abbrev idle : ExEx (List ℕ)
idle = record { execution_outcome = []; events = (4, 104) ∷ [] }

poll-same_example : poll (methods ℕ) outcomes stream idle ≡ (
  (InMemory.poll (methods ℕ) outcomes stream []).1,
  record {
    execution_outcome = (InMemory.poll (methods ℕ) outcomes stream []).2;
    events = (4, 104) ∷ (InMemory.poll (methods ℕ) outcomes stream []).0;
  },
)
poll-same_example = poll-same (methods ℕ) outcomes stream idle
