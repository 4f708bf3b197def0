-- ===== src/Backfill/Tasks.antt =====
-- The tasks that backfill/src/main.rs spawns, the keys of its map of jobs, and its queue of
-- messages.
use Prim.Native.Nat.{ℕ, suc}
use mathlib.Core.Path.{◌≡◌, refl}
use mathlib.Core.Bool.{Bool, true, false, not, ◌&&◌, ◌||◌}
use mathlib.Core.List.{List, [], ◌∷◌}
use native.Mathlib.Omega.{arith}
use reth_exex_examples.Common.{◌==◌, if◌then◌else◌, length}

-- A task runs; it has a request to cancel in its channel; or it has left its `select!` and still
-- holds its permit.
pub data Phase : Type 0 where
  running cancelling ending : Phase

pub record Task : Type 0 where
  pub job_id : ℕ
  pub first : ℕ
  pub last : ℕ
  pub phase : Phase

abbrev is_live : Phase → Bool
is_live Phase.running = true
is_live Phase.cancelling = true
is_live Phase.ending = false

abbrev is_cancelling : Phase → Bool
is_cancelling Phase.cancelling = true
is_cancelling other = false

-- Some task of the job still listens on its cancel channel.
unfoldable pub has_live : ℕ → List Task → Bool
has_live id [] = false
has_live id (t ∷ tasks) = ((t.job_id == id) && is_live t.phase) || has_live id tasks

-- Some task of the job has a request to cancel that it has not seen.
unfoldable pub has_cancelling : ℕ → List Task → Bool
has_cancelling id [] = false
has_cancelling id (t ∷ tasks) =
    ((t.job_id == id) && is_cancelling t.phase) || has_cancelling id tasks

pub has_ending : ℕ → List Task → Bool
has_ending id [] = false
has_ending id (t ∷ tasks) = ((t.job_id == id) && not (is_live t.phase)) || has_ending id tasks

abbrev requested_phase : Phase → Phase
requested_phase Phase.running = Phase.cancelling
requested_phase other = other

-- `cancel_tx.send(tx)`: the request is put in the channel of the job's task.
unfoldable pub request_cancel : ℕ → List Task → List Task
request_cancel id [] = []
request_cancel id (t ∷ tasks) =
    (if t.job_id == id then record t { phase = requested_phase t.phase } else t)
    ∷ request_cancel id tasks

pub end_task : ℕ → List Task → List Task
end_task id [] = []
end_task id (t ∷ tasks) =
    (if t.job_id == id then record t { phase = Phase.ending } else t) ∷ end_task id tasks

-- A task that has ended is gone, and with it its permit.
pub drop_task : ℕ → List Task → List Task
drop_task id [] = []
drop_task id (t ∷ tasks) =
    let rest = drop_task id tasks in
    if (t.job_id == id) && not (is_live t.phase) then tasks else t ∷ rest

pub has_live-request_cancel :
    (id j : ℕ) (tasks : List Task) → has_live id (request_cancel j tasks) ≡ has_live id tasks
unfolding has_live request_cancel
has_live-request_cancel id j [] = refl
has_live-request_cancel id j (t ∷ tasks) = ground (arith, has_live-request_cancel id j tasks)

pub has_cancelling-request_cancel :
    (id j : ℕ) (tasks : List Task)
    → has_cancelling id (request_cancel j tasks)
      ≡ (if j == id then has_live id tasks else has_cancelling id tasks)
unfolding has_live has_cancelling request_cancel
has_cancelling-request_cancel id j [] = ground arith
has_cancelling-request_cancel id j (t ∷ tasks) =
    ground (arith, has_cancelling-request_cancel id j tasks)

pub length-request_cancel :
    (j : ℕ) (tasks : List Task) → length (request_cancel j tasks) ≡ length tasks
unfolding request_cancel
length-request_cancel j [] = refl
length-request_cancel j (t ∷ tasks) = omega (arith, length-request_cancel j tasks)

pub has_live-end_task :
    (id j : ℕ) (tasks : List Task)
    → has_live id (end_task j tasks) ≡ (has_live id tasks && not (j == id))
unfolding has_live end_task
has_live-end_task id j [] = refl
has_live-end_task id j (t ∷ tasks) = ground (arith, has_live-end_task id j tasks)

pub has_cancelling-end_task :
    (id j : ℕ) (tasks : List Task)
    → has_cancelling id (end_task j tasks) ≡ (has_cancelling id tasks && not (j == id))
unfolding has_cancelling end_task
has_cancelling-end_task id j [] = refl
has_cancelling-end_task id j (t ∷ tasks) = ground (arith, has_cancelling-end_task id j tasks)

pub length-end_task : (j : ℕ) (tasks : List Task) → length (end_task j tasks) ≡ length tasks
unfolding end_task
length-end_task j [] = refl
length-end_task j (t ∷ tasks) = omega (arith, length-end_task j tasks)

pub has_live-drop_task :
    (id j : ℕ) (tasks : List Task) → has_live id (drop_task j tasks) ≡ has_live id tasks
unfolding has_live drop_task
has_live-drop_task id j [] = refl
has_live-drop_task id j (t ∷ tasks) = ground (arith, has_live-drop_task id j tasks)

pub has_cancelling-drop_task :
    (id j : ℕ) (tasks : List Task) → has_cancelling id (drop_task j tasks) ≡ has_cancelling id tasks
unfolding has_cancelling drop_task
has_cancelling-drop_task id j [] = refl
has_cancelling-drop_task id j (t ∷ tasks) = ground (arith, has_cancelling-drop_task id j tasks)

pub length-drop_task :
    (j : ℕ) (tasks : List Task)
    → has_ending j tasks ≡ true
    → suc (length (drop_task j tasks)) ≡ length tasks
unfolding has_ending drop_task
length-drop_task j [] h = cc
length-drop_task j (t ∷ tasks) h = ground (arith, length-drop_task j tasks)

pub has_cancelling→has_live :
    (id : ℕ) (tasks : List Task) → has_cancelling id tasks ≡ true → has_live id tasks ≡ true
unfolding has_live has_cancelling
has_cancelling→has_live id [] h = h
has_cancelling→has_live id (t ∷ tasks) h = ground (arith, has_cancelling→has_live id tasks)
