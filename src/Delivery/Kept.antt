-- ===== src/Delivery/Kept.antt =====
-- What holds of every delivered log holds after every call, when it holds of the log that is delivered.
use polymarket_cpp_client.Prelude.{
  subst, ℕ, ◌≡◌, inl, inr, refl, leb, Bool, true, false, not, ◌&&◌, List, ◌∷◌, none, some, is_empty,
  All, Option-cases, on_if, if◌then◌else◌, ◌-◌,
}
use polymarket_cpp_client.Prelude.Except.{Except, ok, throw, on_bind, ok-injective}
use polymarket_cpp_client.Cursors.{EvmIndexCursor, whole_block}
use polymarket_cpp_client.Quantity.{evm_quantity_to_uint64}
use polymarket_cpp_client.EventLog.{EvmLog, evm_log_identity, evm_log_block, evm_log_position}
use polymarket_cpp_client.Delivery.{
  EvmDeliveredLog, Sink, lookup, erase_delivered, emplace, emit, emit_removal, emit_delivery,
  is_delivered, emit_claimed, emit_rewound, rewind_for, emit_log, prune_delivered, save_in_store,
  save_checkpoint, save_log_checkpoint,
}
use polymarket_cpp_client.Delivery.Entries.{All-erase_delivered, All-erase_old, All-lookup}

save_in_store-same :
    (next : EvmIndexCursor) (sink : Sink)
    → ((save_in_store next sink).delivered ≡ sink.delivered)
      × ((save_in_store next sink).trace ≡ sink.trace)
unfolding save_in_store
save_in_store-same next sink =
    on_if (λ (saved : Sink). (saved.delivered ≡ sink.delivered) × (saved.trace ≡ sink.trace))
      sink.has_store (λ stored. (refl, refl)) (λ unstored. (refl, refl))

-- A checkpoint within a block changes the cursor alone.
pub save_log_checkpoint-same :
    (log : EvmLog) (sink saved : Sink)
    → save_log_checkpoint log sink ≡ ok saved
    → (saved.delivered ≡ sink.delivered) × (saved.trace ≡ sink.trace)
unfolding save_log_checkpoint
save_log_checkpoint-same log sink saved h =
    on_bind (evm_quantity_to_uint64 log.block_number) _ h (λ block read rest.
      on_if
        (λ result.
          result ≡ ok saved → (saved.delivered ≡ sink.delivered) × (saved.trace ≡ sink.trace))
        sink.has_store
        (λ stored r. on_bind (evm_log_position log) _ r (λ position e f.
          subst (λ (s : Sink). (s.delivered ≡ sink.delivered) × (s.trace ≡ sink.trace))
            (ok-injective f)
            (save_in_store-same
              (record { block_number = block; block_complete = false; last_log = some position })
              sink)))
        (λ unstored r.
          subst (λ (s : Sink). (s.delivered ≡ sink.delivered) × (s.trace ≡ sink.trace))
            (ok-injective r) (refl, refl))
        rest)

module _ {ℓ} (P : EvmDeliveredLog → Type ℓ) where
  abbrev Keeps : Sink × Except Bool → Type ℓ
  Keeps left = All P left.0.delivered

  All-emplace :
      (e : EvmDeliveredLog) (entries : List EvmDeliveredLog)
      → P e
      → All P entries
      → All P (emplace e entries)
  unfolding emplace
  All-emplace e entries p all =
      elim (lookup e.identity entries)
        as (λ found. All P (elim found [ none ↦ e ∷ entries | some old ↦ entries ])) [
          | none ↦ (p, all)
          | some old ↦ all
        ]

  emit_removal-Keeps :
      (log : EvmLog) (accepts : Bool) (sink : Sink)
      → All P sink.delivered
      → Keeps (emit_removal log accepts sink)
  unfolding emit_removal emit
  emit_removal-Keeps log true sink all =
      All-erase_delivered P (evm_log_identity log) sink.delivered all
  emit_removal-Keeps log false sink all =
      elim (Option-cases (lookup (evm_log_identity log) sink.delivered)) [
        | inl absent ↦ rw absent all
        | inr (e, found) ↦ rw found (
            All-emplace e (erase_delivered (evm_log_identity log) sink.delivered)
              (All-lookup P (evm_log_identity log) sink.delivered e all found)
              (All-erase_delivered P (evm_log_identity log) sink.delivered all))
      ]

  emit_delivery-Keeps :
      (log : EvmLog) (block : ℕ) (accepts : Bool) (sink : Sink)
      → ((e : EvmDeliveredLog) → e.identity ≡ evm_log_identity log → P e)
      → All P sink.delivered
      → Keeps (emit_delivery log block accepts sink)
  unfolding emit_delivery emit
  emit_delivery-Keeps log block accepts sink new all =
      let id = evm_log_identity log in
      let entry : EvmDeliveredLog = record { identity = id; log = log; block = block } in
      let noted : All P (if is_empty id then sink.delivered else emplace entry sink.delivered) =
        on_if (All P) (is_empty id) (λ unnamed. all)
          (λ named. All-emplace entry sink.delivered (new entry refl) all) in
      on_if Keeps accepts (λ yes. noted)
        (λ no.
          on_if (All P) (is_empty id) (λ unnamed. noted)
            (λ named. All-erase_delivered P id _ noted))

  emit_claimed-Keeps :
      (log : EvmLog) (block : ℕ) (accepts : Bool) (sink : Sink)
      → (log.removed ≡ false → (e : EvmDeliveredLog) → e.identity ≡ evm_log_identity log → P e)
      → All P sink.delivered
      → Keeps (emit_claimed log block accepts sink)
  unfolding emit_claimed
  emit_claimed-Keeps log block accepts sink new all =
      on_if Keeps log.removed (λ gone. emit_removal-Keeps log accepts sink all)
        (λ there.
          on_if Keeps
            (not (is_empty (evm_log_identity log))
              && is_delivered (evm_log_identity log) sink.delivered)
            (λ repeated. all) (λ fresh. emit_delivery-Keeps log block accepts sink (new there) all))

  -- A log that is not live.
  pub emit_log-All :
      (log : EvmLog) (accepts : Bool) (sink : Sink)
      → (log.removed ≡ false → (e : EvmDeliveredLog) → e.identity ≡ evm_log_identity log → P e)
      → All P sink.delivered
      → All P (emit_log log false accepts sink).0.delivered
  unfolding emit_log rewind_for emit_rewound
  emit_log-All log accepts sink new all =
      on_if Keeps sink.shutdown (λ down. all)
        (λ up.
          elim (evm_log_block log)
            as (λ read. Keeps (elim read [
              | throw e ↦ (sink, throw e)
              | ok block ↦ emit_claimed log block accepts sink
            ])) [ throw e ↦ all | ok block ↦ emit_claimed-Keeps log block accepts sink new all ])

  save_in_store-All :
      (next : EvmIndexCursor) (sink : Sink)
      → All P sink.delivered
      → All P (save_in_store next sink).delivered
  unfolding save_in_store
  save_in_store-All next sink all =
      on_if (λ (saved : Sink). All P saved.delivered) sink.has_store (λ stored. all)
        (λ unstored. all)

  pub save_checkpoint-All :
      (retention block : ℕ) (sink : Sink)
      → All P sink.delivered
      → All P (save_checkpoint retention block sink).delivered
  unfolding save_checkpoint prune_delivered emit
  save_checkpoint-All retention block sink all =
      let saved = save_in_store (whole_block block) sink in
      let kept : All P saved.delivered = save_in_store-All (whole_block block) sink all in
      on_if (λ (pruned : Sink). All P pruned.delivered) (leb block retention) (λ young. kept)
        (λ old. All-erase_old P (block - retention) saved.delivered kept)
