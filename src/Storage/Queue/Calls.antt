-- ===== src/Storage/Queue/Calls.antt =====
-- The calls that write the queue, as one step: each is one transaction, which commits what it
-- returns and is rolled back when it raises.
use kernel_generation_china.Prelude.{ℕ, Bool, List, [], ◌∷◌}
use kernel_generation_china.Prelude.Result.{Result, ok, err}
use kernel_generation_china.Storage.Events.{Identifier, Json, Draw}
use kernel_generation_china.Storage.Queue.Jobs.{EvaluationJob, Queue, Seconds}
use kernel_generation_china.Storage.Queue.Enqueue.{enqueue}
use kernel_generation_china.Storage.Queue.Claim.{sweep_expired_leases, claim, heartbeat}
use kernel_generation_china.Storage.Queue.Finish.{complete, fail, cancel}

pub data Call : Type 0 where
  enqueues : EvaluationJob → Call
  sweeps : Call
  claims : (token worker : Identifier) → Seconds → Call
  heartbeats : (job worker token : Identifier) → Seconds → Call
  completes : (job worker token : Identifier) → Json → Call
  fails : (job worker token : Identifier) → Json → Bool → Seconds → Call
  cancels : (job : Identifier) → Call

abbrev pub state_of {ℓ} : {A : Type ℓ} → Result (A × Queue) → Result Queue
state_of (ok (a, q)) = ok q
state_of (err e) = err e

-- What one call at `now` commits.
unfoldable pub run : (ℕ → Draw) → ℕ → Call → Queue → Result Queue
run draws now (enqueues j) q = state_of (enqueue now (draws 0) j q)
run draws now sweeps q = state_of (sweep_expired_leases draws now q)
run draws now (claims token worker s) q = state_of (claim draws token worker s now q)
run draws now (heartbeats i w t s) q = state_of (heartbeat i w t s now q)
run draws now (completes i w t r) q = state_of (complete (draws 0) i w t r now q)
run draws now (fails i w t e again s) q = state_of (fail (draws 0) i w t e again s now q)
run draws now (cancels i) q = state_of (cancel (draws 0) i now q)

abbrev pub committed : Queue → Result Queue → Queue
committed q (ok q') = q'
committed q (err e) = q

-- The workers and the controller call one after the other: SQLite serialises the transactions.
pub record Input : Type 0 where
  pub draws : ℕ → Draw
  pub now : ℕ
  pub call : Call

unfoldable pub serve : Queue → List Input → Queue
serve q [] = q
serve q (i ∷ is) = serve (committed q (run i.draws i.now i.call q)) is
