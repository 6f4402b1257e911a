-- ===== src/Examples/Tasks.antt =====
-- A queue of background tasks that holds one task, at concrete inputs.
use wcs_transfer.Base.{ℕ, ◌≡◌, refl, false, [], ◌∷◌, length, arith}
use wcs_transfer.Worker.{BackgroundWorker, new_worker, submit, Reach, submits, here, then_step}
use wcs_transfer.Worker.Order.{IsOrdered, drain, run_worker-IsOrdered, drain-run_worker}

-- Task 1 is queued, task 2 is dropped.
abbrev one_queued : BackgroundWorker ℕ
one_queued = record {
  queue = 1 ∷ [];
  workers = 1;
  is_sync = false;
  is_stopped = false;
  accepted = 1 ∷ [];
  started = [];
  dropped = [];
}

abbrev one_dropped : BackgroundWorker ℕ
one_dropped = record one_queued { dropped = 2 ∷ [] }

Reach-one_dropped : Reach 1 (new_worker 1 false) one_dropped
unfolding submit new_worker
Reach-one_dropped = then_step (then_step here (submits {next = one_queued} 1 refl)) (submits 2 refl)

run_worker-IsOrdered_example : IsOrdered 1 one_dropped
run_worker-IsOrdered_example = run_worker-IsOrdered 1 1 false one_dropped Reach-one_dropped

drain-run_worker_example :
    ((drain (length one_dropped.queue) one_dropped).started ≡ 1 ∷ [])
    × ((drain (length one_dropped.queue) one_dropped).queue ≡ [])
drain-run_worker_example = drain-run_worker 1 1 false one_dropped Reach-one_dropped (omega arith)
