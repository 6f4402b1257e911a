-- ===== src/Worker/Stopped.antt =====
-- What `Stop` may leave in the queue of background tasks (backend/internal/platform/worker.go).
use wcs_transfer.Base.{ℕ, zero, suc, ◌≡◌, refl, true, false, some, arith}
use mathlib.Core.Path.{subst}
use wcs_transfer.Worker.{BackgroundWorker, quit, stop, Reach, quits, stops, then_step}

module _ {T : Type 0} (queue_size : ℕ) (start : BackgroundWorker T) where
  quit-next :
      (k : ℕ) (bw : BackgroundWorker T)
      → bw.is_stopped ≡ true
      → bw.workers ≡ suc k
      → quit bw ≡ some (record bw { workers = k })
  unfolding quit
  quit-next k bw stopped h = ground (arith, stopped, h)

  stop-next :
      (bw : BackgroundWorker T)
      → bw.is_sync ≡ false
      → bw.is_stopped ≡ false
      → stop bw ≡ some (record bw { is_stopped = true })
  unfolding stop
  stop-next bw async running = ground (arith, async, running)

  all_quit :
      (k : ℕ) (bw : BackgroundWorker T)
      → Reach queue_size start bw
      → bw.is_stopped ≡ true
      → bw.workers ≡ k
      → Reach queue_size start (record bw { workers = 0 })
  all_quit zero bw reach stopped h =
      subst (λ k. Reach queue_size start (record bw { workers = k })) h reach
  all_quit (suc k) bw reach stopped h =
      all_quit k (record bw { workers = k }) (then_step reach (quits (quit-next k bw stopped h)))
        stopped refl

  -- A worker that is not synchronous and not yet stopped may, once it is stopped, end with no worker
  -- left, its queue as it was and no task started since.
  pub stop-left_queue :
      (bw : BackgroundWorker T)
      → Reach queue_size start bw
      → bw.is_sync ≡ false
      → bw.is_stopped ≡ false
      → Reach queue_size start (record bw { is_stopped = true; workers = 0 })
  stop-left_queue bw reach async running =
      all_quit bw.workers (record bw { is_stopped = true })
        (then_step reach (stops (stop-next bw async running))) refl refl
