-- ===== src/LiveState/Recovery.antt =====
-- A live log that the indexer accepts waits in a queue, or a recovery of the last blocks is pending, and
-- stays pending until it is served. How many blocks a recovery goes back is reorg_lookback_blocks.
use polymarket_cpp_client.Prelude.{
  ℕ, ltb, ◌==◌, ◌≡◌, ◌∙◌, ◌⊎◌, inl, inr, refl, arith, Bool, true, false, not, ◌&&◌, ◌||◌, on_if,
  Bool-cases, some, List, [], ◌∷◌, ◌++◌, length,
}
use polymarket_cpp_client.EventLog.{EvmLog}
use polymarket_cpp_client.LiveState.{
  EvmDeliveryJob, EvmDeliveryError, evm_live_log_queue_limit, LiveState,
  queue_delivery_error_locked,
}
use polymarket_cpp_client.LiveState.Steps.{
  finish_start, buffer_log, handle_live_log, handle_live_head, handle_live_error,
  schedule_overlap_recovery, enqueue_log, take_live, take_coalesced, take_error, take_delivery,
  may_deliver_live, Taken, note_durable, start_durable, begin_reconcile,
  report_reconciliation_failure, end_reconcile, shutdown_delivery_worker,
}
use polymarket_cpp_client.LiveState.Runs.{
  Step, begins_start, fails_start, stops, takes, begins_reconcile, ends_reconcile,
  shuts_reconciliation, shuts_delivery, finishes_start, recovers, drains, handles_log, handles_head,
  notes_durable, starts_durable, handles_error, enqueues, reports_failure, step, run_steps,
}

-- The node will be asked for the last blocks again.
unfoldable pub recovery_pending : LiveState → Bool
recovery_pending state =
    state.handoff_gap_pending || (state.refresh_head_pending && state.overlap_recovery_pending)

-- What the next round of the reconciliation loop works on, while it runs and the hand-off is over: a
-- fresh head and the overlap before it, for the generation.
abbrev pub IsRequested : ℕ → LiveState → Type 0
IsRequested generation state =
    (state.worker_shutdown ≡ true)
    ⊎ (state.buffering ≡ true)
    ⊎ ((begin_reconcile state).1
        ≡ some (record {
          head = state.pending_head;
          generation = generation;
          refresh_head = true;
          recover_overlap = true;
        }))

begin_reconcile-IsRequested :
    (state : LiveState)
    → state.refresh_head_pending ≡ true
    → state.overlap_recovery_pending ≡ true
    → IsRequested state.pending_generation state
unfolding begin_reconcile
begin_reconcile-IsRequested state refresh overlap = elim (Bool-cases state.worker_shutdown) [
  | inl down ↦ inl down
  | inr up ↦ elim (Bool-cases state.buffering) [
    | inl buffers ↦ inr (inl buffers)
    | inr live ↦
        let opens : (state.worker_shutdown
              || not
                  (state.has_pending_head || (state.refresh_head_pending && not state.buffering)))
            ≡ false =
          ground arith in
        inr (inr (rw (opens, refresh, overlap) refl))
  ]
]

-- A live log that is passed on under the current generation, before a shutdown, is appended to the
-- delivery queue; or a recovery is pending, and unless the reconciliation worker is shut down or the
-- hand-off still buffers, its next round takes a request of this generation to refresh the head and to
-- recover the overlap.
pub enqueue_log-recovery_pending :
    (log : EvmLog) (generation : ℕ) (state : LiveState)
    → state.delivery_shutdown ≡ false
    → (generation == state.generation) ≡ true
    → ((enqueue_log log true generation state).0.live_deliveries
        ≡ state.live_deliveries ++ record { log = log; live = true; generation = generation } ∷ [])
      ⊎ ((recovery_pending (enqueue_log log true generation state).0 ≡ true)
          × IsRequested generation (enqueue_log log true generation state).0)
unfolding enqueue_log recovery_pending queue_delivery_error_locked
enqueue_log-recovery_pending log generation state up same =
    let job : EvmDeliveryJob = record { log = log; live = true; generation = generation } in
    let Q = (λ (after : LiveState × Bool).
      (after.0.live_deliveries ≡ state.live_deliveries ++ job ∷ [])
      ⊎ ((recovery_pending after.0 ≡ true) × IsRequested generation after.0)) in
    on_if Q (state.delivery_shutdown || not (generation == state.generation))
      (λ idle. absurd (ground arith))
      (λ runs.
        on_if Q (not (ltb (length state.live_deliveries) evm_live_log_queue_limit))
          (λ full. inr (ground arith, begin_reconcile-IsRequested _ refl refl)) (λ room. inl refl))

-- The steps that serve a recovery, or make it void.
unfoldable pub may_serve : Step → Bool
may_serve begins_start = true
may_serve fails_start = true
may_serve stops = true
may_serve begins_reconcile = true
may_serve shuts_reconciliation = true
may_serve (drains generation) = true
may_serve takes = false
may_serve ends_reconcile = false
may_serve shuts_delivery = false
may_serve (finishes_start generation) = false
may_serve (recovers generation) = false
may_serve (handles_log log generation) = false
may_serve (handles_head block generation) = false
may_serve (notes_durable generation durable) = false
may_serve (starts_durable durable) = false
may_serve (handles_error error is_gap generation) = false
may_serve (enqueues log live generation) = false
may_serve (reports_failure generation overlap) = false

unfoldable pub some_may_serve : List Step → Bool
some_may_serve [] = false
some_may_serve (s ∷ steps) = may_serve s || some_may_serve steps

-- A recovery that is pending outlives the other steps. The delivery thread changes the queues alone.
take_live-recovery_pending :
    (jobs : List EvmDeliveryJob) (state : LiveState)
    → recovery_pending (take_live (record state { live_deliveries = jobs })).0
      ≡ recovery_pending state
unfolding take_live recovery_pending
take_live-recovery_pending [] state = refl
take_live-recovery_pending (job ∷ jobs) state =
    on_if (λ (after : LiveState × Taken). recovery_pending after.0 ≡ recovery_pending state)
      (may_deliver_live (record state { live_deliveries = job ∷ jobs })) (λ may. refl)
      (λ waits. refl)

take_error-recovery_pending :
    (errors : List EvmDeliveryError) (state : LiveState)
    → recovery_pending (take_error (record state { delivery_errors = errors })).0
      ≡ recovery_pending state
unfolding take_error take_coalesced recovery_pending
take_error-recovery_pending [] state =
    on_if (λ (after : LiveState × Taken). recovery_pending after.0 ≡ recovery_pending state)
      (ltb 0 state.coalesced_delivery_errors) (λ lost. refl)
      (λ kept.
        take_live-recovery_pending state.live_deliveries (record state { delivery_errors = [] }))
take_error-recovery_pending (error ∷ errors) state = refl

take_delivery-recovery_pending :
    (historical : List EvmDeliveryJob) (state : LiveState)
    → recovery_pending (take_delivery (record state { historical_deliveries = historical })).0
      ≡ recovery_pending state
unfolding take_delivery recovery_pending
take_delivery-recovery_pending [] state =
    on_if (λ (after : LiveState × Taken). recovery_pending after.0 ≡ recovery_pending state)
      state.delivery_shutdown (λ down. refl)
      (λ up.
        take_error-recovery_pending state.delivery_errors
          (record state { historical_deliveries = [] }))
take_delivery-recovery_pending (job ∷ jobs) state =
    on_if (λ (after : LiveState × Taken). recovery_pending after.0 ≡ recovery_pending state)
      state.delivery_shutdown (λ down. refl) (λ up. refl)

buffer_log-recovery_pending :
    (log : EvmLog) (generation : ℕ) (state : LiveState)
    → recovery_pending state ≡ true
    → recovery_pending (buffer_log log generation state) ≡ true
unfolding buffer_log recovery_pending queue_delivery_error_locked
buffer_log-recovery_pending log generation state h = ground arith

step-recovery_pending :
    (s : Step) (state : LiveState)
    → may_serve s ≡ false
    → recovery_pending state ≡ true
    → recovery_pending (step s state) ≡ true
unfolding step may_serve recovery_pending finish_start schedule_overlap_recovery handle_live_log
    handle_live_head handle_live_error queue_delivery_error_locked note_durable start_durable
    enqueue_log end_reconcile report_reconciliation_failure shutdown_delivery_worker
step-recovery_pending begins_start state idle h = cc
step-recovery_pending fails_start state idle h = cc
step-recovery_pending stops state idle h = cc
step-recovery_pending takes state idle h =
    take_delivery-recovery_pending state.historical_deliveries state ∙ h
step-recovery_pending begins_reconcile state idle h = cc
step-recovery_pending ends_reconcile state idle h = ground arith
step-recovery_pending shuts_reconciliation state idle h = cc
step-recovery_pending shuts_delivery state idle h = h
step-recovery_pending (finishes_start generation) state idle h = ground arith
step-recovery_pending (recovers generation) state idle h = ground arith
step-recovery_pending (drains generation) state idle h = cc
step-recovery_pending (handles_log log generation) state idle h =
    ground (arith, buffer_log-recovery_pending log generation state h)
step-recovery_pending (handles_head block generation) state idle h = ground arith
step-recovery_pending (notes_durable generation durable) state idle h = ground arith
step-recovery_pending (starts_durable durable) state idle h = ground arith
step-recovery_pending (handles_error error is_gap generation) state idle h = ground arith
step-recovery_pending (enqueues log live generation) state idle h = ground arith
step-recovery_pending (reports_failure generation overlap) state idle h = ground arith

-- A recovery that is pending is still pending after any interleaving of steps without a start, a stop or
-- a shutdown of the reconciliation, a drain of the hand-off or the beginning of a reconciliation.
pub run_steps-recovery_pending :
    (steps : List Step) (state : LiveState)
    → some_may_serve steps ≡ false
    → recovery_pending state ≡ true
    → recovery_pending (run_steps steps state) ≡ true
unfolding run_steps some_may_serve
run_steps-recovery_pending [] state idle h = h
run_steps-recovery_pending (s ∷ steps) state idle h =
    run_steps-recovery_pending steps (step s state) (ground arith)
      (step-recovery_pending s state (ground arith) h)
