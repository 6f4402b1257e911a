-- ===== src/Worker.antt =====
-- The queue of background tasks (backend/internal/platform/worker.go: `newWorker`, `Submit`,
-- `worker`, `Stop`). The goroutines are interleaved by steps: which of the cases of a `select` that
-- are ready a worker takes is left open. `accepted`, `started` and `dropped` record what happened to
-- the tasks; a task that panics is recovered and counts as started.
-- A queue of size 0, which hands a task to a waiting worker, is not modelled; the gateway's has 1000.
pub mod Order
pub mod Stopped
use wcs_transfer.Base.{
  ℕ, ◌-◌, ◌≡◌, Bool, true, false, Option, none, some, List, [], ◌∷◌, ◌++◌, ltb, if◌then◌else◌,
  length,
}

pub record BackgroundWorker (T : Type 0) : Type 0 where
  pub queue : List T
  pub workers : ℕ
  pub is_sync : Bool
  pub is_stopped : Bool
  pub accepted : List T
  pub started : List T
  pub dropped : List T

module _ {T : Type 0} where
  unfoldable pub new_worker : ℕ → Bool → BackgroundWorker T
  new_worker workers is_sync = record {
    queue = [];
    workers = if is_sync then 0 else workers;
    is_sync = is_sync;
    is_stopped = false;
    accepted = [];
    started = [];
    dropped = [];
  }

  -- `none` is the panic of a send on a closed channel.
  unfoldable pub submit : ℕ → T → BackgroundWorker T → Option (BackgroundWorker T)
  submit queue_size task bw =
      if bw.is_sync
      then some
          (record bw { accepted = bw.accepted ++ (task ∷ []); started = bw.started ++ (task ∷ []) })
      else (if bw.is_stopped
          then none
          else (if ltb (length bw.queue) queue_size
              then some (record bw {
                queue = bw.queue ++ (task ∷ []);
                accepted = bw.accepted ++ (task ∷ []);
              })
              else some (record bw { dropped = bw.dropped ++ (task ∷ []) })))

  -- A worker takes the first task and runs it; `none` if there is no worker or no task.
  unfoldable pub receive : BackgroundWorker T → Option (BackgroundWorker T)
  receive bw = elim bw.queue [
    | [] ↦ none
    | task ∷ queue ↦
        if ltb 0 bw.workers
        then some (record bw { queue = queue; started = bw.started ++ (task ∷ []) })
        else none
  ]

  -- A worker returns, once the context is done, whatever the queue holds.
  unfoldable pub quit : BackgroundWorker T → Option (BackgroundWorker T)
  quit bw =
      if bw.is_stopped
      then (if ltb 0 bw.workers then some (record bw { workers = bw.workers - 1 }) else none)
      else none

  -- `close` and `cancel`; `none` is the panic of a second `close`.
  unfoldable pub stop : BackgroundWorker T → Option (BackgroundWorker T)
  stop bw =
      if bw.is_sync
      then some (record bw { is_stopped = true })
      else (if bw.is_stopped then none else some (record bw { is_stopped = true }))

  pub data Step (queue_size : ℕ) : BackgroundWorker T → BackgroundWorker T → Type 0 where
    submits :
        {bw next : BackgroundWorker T} (task : T)
        → submit queue_size task bw ≡ some next
        → Step queue_size bw next
    receives : {bw next : BackgroundWorker T} → receive bw ≡ some next → Step queue_size bw next
    quits : {bw next : BackgroundWorker T} → quit bw ≡ some next → Step queue_size bw next
    stops : {bw next : BackgroundWorker T} → stop bw ≡ some next → Step queue_size bw next

  pub data Reach (queue_size : ℕ) (start : BackgroundWorker T) : BackgroundWorker T → Type 0 where
    here : Reach queue_size start start
    then_step :
        {bw next : BackgroundWorker T}
        → Reach queue_size start bw
        → Step queue_size bw next
        → Reach queue_size start next
