-- ===== src/Worker/Order.antt =====
-- The order in which background tasks are started, and the bound of their queue
-- (backend/internal/platform/worker.go).
use wcs_transfer.Base.{
  ℕ, zero, suc, ◌<◌, ◌≤◌, ◌≡◌, ◌⊎◌, inl, inr, Bool, false, none, some, List, [], ◌∷◌, ◌++◌, arith,
  length, length-append, refl, sym, ap, ◌∙◌, Bool-cases,
}
use mathlib.Core.List.{append-nil, append_assoc}
use wcs_transfer.Worker.{
  BackgroundWorker, new_worker, submit, receive, quit, stop, Step, Reach, submits, receives, quits,
  stops, here, then_step,
}

queue_cases :
    {T : Type 0} (queue : List T)
    → (queue ≡ []) ⊎ ((task : T) × (rest : List T) × (queue ≡ task ∷ rest))
queue_cases [] = inl refl
queue_cases (task ∷ rest) = inr (task, rest, refl)

module _ {T : Type 0} (queue_size : ℕ) where
  -- The accepted tasks are the started ones and then the queued ones, the queue is within its size,
  -- and a synchronous worker queues and drops nothing.
  abbrev pub IsOrdered : BackgroundWorker T → Type 0
  IsOrdered bw =
      (bw.accepted ≡ bw.started ++ bw.queue)
      × (length bw.queue ≤ queue_size)
      × ((bw.is_sync ≡ false) ⊎ ((bw.queue ≡ []) × (bw.dropped ≡ [])))

  submit-IsOrdered :
      (task : T) (bw next : BackgroundWorker T)
      → IsOrdered bw
      → submit queue_size task bw ≡ some next
      → IsOrdered next
  unfolding submit
  submit-IsOrdered task bw next h e = ground (
    arith,
    h,
    e,
    append_assoc bw.started bw.queue (task ∷ []),
    append-nil bw.started,
    append-nil (bw.started ++ (task ∷ [])),
    length-append bw.queue (task ∷ []),
  )

  receive-IsOrdered :
      (bw next : BackgroundWorker T) → IsOrdered bw → receive bw ≡ some next → IsOrdered next
  unfolding receive
  receive-IsOrdered bw next h e = elim (queue_cases bw.queue) [
    | inl empty ↦ ground (arith, e, empty)
    | inr (task, rest, at_front) ↦
        ground (arith, h, e, at_front, append_assoc bw.started (task ∷ []) rest)
  ]

  quit-IsOrdered :
      (bw next : BackgroundWorker T) → IsOrdered bw → quit bw ≡ some next → IsOrdered next
  unfolding quit
  quit-IsOrdered bw next h e = ground (arith, h, e)

  stop-IsOrdered :
      (bw next : BackgroundWorker T) → IsOrdered bw → stop bw ≡ some next → IsOrdered next
  unfolding stop
  stop-IsOrdered bw next h e = ground (arith, h, e)

  Step-IsOrdered :
      (bw next : BackgroundWorker T) → IsOrdered bw → Step queue_size bw next → IsOrdered next
  Step-IsOrdered bw next h (submits task e) = submit-IsOrdered task bw next h e
  Step-IsOrdered bw next h (receives e) = receive-IsOrdered bw next h e
  Step-IsOrdered bw next h (quits e) = quit-IsOrdered bw next h e
  Step-IsOrdered bw next h (stops e) = stop-IsOrdered bw next h e

  new_worker-IsOrdered : (workers : ℕ) (is_sync : Bool) → IsOrdered (new_worker workers is_sync)
  unfolding new_worker
  new_worker-IsOrdered workers is_sync = ground (arith, Bool-cases is_sync)

  -- Whatever happens after a worker is created, the tasks that were accepted are the ones that were
  -- started, in the order they were submitted, and then the ones in the queue. The queue stays
  -- within its size, and a synchronous worker queues nothing and drops nothing.
  pub run_worker-IsOrdered :
      (workers : ℕ) (is_sync : Bool) (bw : BackgroundWorker T)
      → Reach queue_size (new_worker workers is_sync) bw
      → IsOrdered bw
  run_worker-IsOrdered workers is_sync _ here = new_worker-IsOrdered workers is_sync
  run_worker-IsOrdered workers is_sync _ (then_step reach step) =
      Step-IsOrdered _ _ (run_worker-IsOrdered workers is_sync _ reach) step

module _ {T : Type 0} where
  -- One receive after another, as often as there is a task and a worker.
  abbrev pub drain : ℕ → BackgroundWorker T → BackgroundWorker T
  drain zero bw = bw
  drain (suc n) bw = elim (receive bw) [ none ↦ bw | some next ↦ drain n next ]

  receive-front :
      (task : T) (rest : List T) (bw : BackgroundWorker T)
      → 0 < bw.workers
      → bw.queue ≡ task ∷ rest
      → receive bw ≡ some (record bw { queue = rest; started = bw.started ++ (task ∷ []) })
  unfolding receive
  receive-front task rest bw h e = ground (arith, h, e)

  drain_lem :
      (n : ℕ) (bw : BackgroundWorker T)
      → 0 < bw.workers
      → length bw.queue ≡ n
      → ((drain n bw).started ≡ bw.started ++ bw.queue) × ((drain n bw).queue ≡ [])
  drain_lem zero bw h e = elim (queue_cases bw.queue) [
    | inl empty ↦ (sym (ap (λ q. bw.started ++ q) empty ∙ append-nil bw.started), empty)
    | inr (task, rest, at_front) ↦ ground (arith, e, ap length at_front)
  ]
  drain_lem (suc n) bw h e = elim (queue_cases bw.queue) [
    | inl empty ↦ ground (arith, e, ap length empty)
    | inr (task, rest, at_front) ↦
        let (all, none_left) =
          drain_lem n (record bw { queue = rest; started = bw.started ++ (task ∷ []) }) h
            (ground (arith, e, ap length at_front)) in
        rw (receive-front task rest bw h at_front, drain)
          (
            all
                ∙ append_assoc bw.started (task ∷ []) rest
                ∙ ap (λ q. bw.started ++ q) (sym at_front),
            none_left,
          )
  ]

  -- After any run in which a worker is left, as many receives as there are tasks in the queue, with
  -- nothing in between, start every task that was accepted, in the order they were submitted.
  pub drain-run_worker :
      (queue_size workers : ℕ) (is_sync : Bool) (bw : BackgroundWorker T)
      → Reach queue_size (new_worker workers is_sync) bw
      → 0 < bw.workers
      → ((drain (length bw.queue) bw).started ≡ bw.accepted)
        × ((drain (length bw.queue) bw).queue ≡ [])
  drain-run_worker queue_size workers is_sync bw reach h =
      let (started, empty) = drain_lem (length bw.queue) bw h refl in
      (started ∙ sym (run_worker-IsOrdered queue_size workers is_sync bw reach).0, empty)
