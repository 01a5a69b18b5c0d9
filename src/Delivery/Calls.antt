-- ===== src/Delivery/Calls.antt =====
-- The map of delivered logs follows the trace through every call.
use polymarket_cpp_client.Prelude.{
  ℕ, ◌≡◌, inl, inr, refl, arith, leb, Bool, true, false, not, ◌&&◌, if◌then◌else◌, Bool-cases,
  on_if, Option-cases, List, [], ◌∷◌, Option, none, some, Bytes, is_empty, equal_bytes_refl,
  Distinct,
}
use polymarket_cpp_client.Prelude.Except.{Except, ok, throw}
use polymarket_cpp_client.Cursors.{EvmIndexCursor, whole_block}
use polymarket_cpp_client.Quantity.{evm_quantity_to_uint64}
use polymarket_cpp_client.EventLog.{EvmLog, evm_log_identity, evm_log_block}
use polymarket_cpp_client.Delivery.{
  EvmDeliveredLog, checkpoints, Sink, lookup, erase_delivered, emplace, emit, rewind_cursor,
  rewind_for, emit_removal, emit_delivery, is_delivered, emit_claimed, emit_rewound, emit_log,
  prune_delivered, save_in_store, save_checkpoint, save_log_checkpoint, SinkCall, emits, completes,
  passes, shuts_down, run_call, new_sink,
}
use polymarket_cpp_client.Delivery.Kept.{save_log_checkpoint-same}
use polymarket_cpp_client.Delivery.Entries.{keys, emplace-new}
use polymarket_cpp_client.Delivery.View.{view, NoRepeat}
use polymarket_cpp_client.Delivery.Follows.{
  Follows, Follows-unnamed, Follows-delivers, Follows-removes, Follows-prunes, Follows-prunes_early,
  Follows-checkpoints, Follows-put_back,
}

-- Each part of `emit_log`, whatever it returns.
is_delivered-none :
    (id : Bytes) (entries : List EvmDeliveredLog)
    → is_delivered id entries ≡ false
    → lookup id entries ≡ none
unfolding is_delivered
is_delivered-none id entries h = elim (Option-cases (lookup id entries)) [
  | inl absent ↦ absent
  | inr (e, found) ↦ ground (arith, found)
]

is_empty-nil : (id : Bytes) → is_empty id ≡ true → id ≡ []
unfolding is_empty
is_empty-nil [] h = refl
is_empty-nil (c ∷ id) h = cc

-- Follows, of the state that a call leaves.
abbrev Leaves : Sink × Except Bool → Type 0
Leaves left = Follows left.0.delivered left.0.trace

emit_removal-Follows :
    (log : EvmLog) (accepts : Bool) (sink : Sink)
    → Follows sink.delivered sink.trace
    → Leaves (emit_removal log accepts sink)
unfolding emit_removal emit
emit_removal-Follows log true sink f = Follows-removes sink.delivered sink.trace log f
emit_removal-Follows log false sink f =
    elim (Option-cases (lookup (evm_log_identity log) sink.delivered)) [
      | inl absent ↦ rw absent f
      | inr (e, found) ↦
          rw found (Follows-put_back sink.delivered sink.trace (evm_log_identity log) e found f)
    ]

erase_delivered-emplaced :
    (e : EvmDeliveredLog) (entries : List EvmDeliveredLog)
    → erase_delivered e.identity (e ∷ entries) ≡ entries
unfolding erase_delivered
erase_delivered-emplaced e entries = rw (equal_bytes_refl e.identity) refl

emit_delivery-Follows :
    (log : EvmLog) (block : ℕ) (accepts : Bool) (sink : Sink)
    → (not (is_empty (evm_log_identity log)) && is_delivered (evm_log_identity log) sink.delivered)
      ≡ false
    → Follows sink.delivered sink.trace
    → Leaves (emit_delivery log block accepts sink)
unfolding emit_delivery emit
emit_delivery-Follows log block accepts sink fresh f =
    let id = evm_log_identity log in
    let entry : EvmDeliveredLog = record { identity = id; log = log; block = block } in
    elim (Bool-cases (is_empty id)) [
      | inl unnamed ↦ rw unnamed (
          on_if Leaves accepts
            (λ yes. Follows-unnamed sink.delivered sink.trace log block (is_empty-nil id unnamed) f)
            (λ no. f))
      | inr named ↦
          let new : lookup id sink.delivered ≡ none =
            is_delivered-none id sink.delivered (ground (arith, named)) in
          let added : emplace entry sink.delivered ≡ entry ∷ sink.delivered =
            emplace-new entry sink.delivered new in
          rw (named, added, erase_delivered-emplaced entry sink.delivered)
            (on_if Leaves accepts
              (λ yes. Follows-delivers sink.delivered sink.trace log block named new f) (λ no. f))
    ]

emit_claimed-Follows :
    (log : EvmLog) (block : ℕ) (accepts : Bool) (sink : Sink)
    → Follows sink.delivered sink.trace
    → Leaves (emit_claimed log block accepts sink)
unfolding emit_claimed
emit_claimed-Follows log block accepts sink f =
    on_if Leaves log.removed (λ gone. emit_removal-Follows log accepts sink f)
      (λ there.
        on_if Leaves
          (not (is_empty (evm_log_identity log))
            && is_delivered (evm_log_identity log) sink.delivered)
          (λ repeated. f) (λ fresh. emit_delivery-Follows log block accepts sink fresh f))

emit_rewound-Follows :
    (log : EvmLog) (accepts : Bool) (sink : Sink)
    → Follows sink.delivered sink.trace
    → Leaves (emit_rewound log accepts sink)
unfolding emit_rewound
emit_rewound-Follows log accepts sink f =
    on_if Leaves sink.shutdown (λ down. f)
      (λ up.
        elim (evm_log_block log)
          as (λ read. Leaves (elim read [
            | throw e ↦ (sink, throw e)
            | ok block ↦ emit_claimed log block accepts sink
          ])) [ throw e ↦ f | ok block ↦ emit_claimed-Follows log block accepts sink f ])

abbrev pub Stays : Sink → Type 0
Stays sink = Follows sink.delivered sink.trace

rewind_cursor-Follows :
    (cursor : Option EvmIndexCursor) (block : ℕ) (sink : Sink)
    → Stays sink
    → Stays (rewind_cursor cursor block sink)
unfolding rewind_cursor emit
rewind_cursor-Follows none block sink f = f
rewind_cursor-Follows (some cursor) block sink f =
    on_if Stays (leb block cursor.block_number)
      (λ behind. Follows-checkpoints sink.delivered sink.trace block f) (λ ahead. f)

-- The state that an emission goes on from.
abbrev StaysIfOk : Except Sink → Type 0
StaysIfOk (throw e) = Unit
StaysIfOk (ok sink) = Stays sink

rewind_for-Follows :
    (log : EvmLog) (live : Bool) (sink : Sink) → Stays sink → StaysIfOk (rewind_for log live sink)
unfolding rewind_for
rewind_for-Follows log live sink f =
    on_if StaysIfOk (live && log.removed && not (is_empty log.block_number))
      (λ yes.
        elim (evm_quantity_to_uint64 log.block_number)
          as (λ read. StaysIfOk (elim read [
            | throw e ↦ throw e
            | ok block ↦ ok (if sink.has_store then rewind_cursor sink.cursor block sink else sink)
          ])) [
            | throw e ↦ tt
            | ok block ↦
                on_if Stays sink.has_store
                  (λ stored. rewind_cursor-Follows sink.cursor block sink f) (λ unstored. f)
          ])
      (λ no. f)

pub emit_log-Follows :
    (log : EvmLog) (live accepts : Bool) (sink : Sink)
    → Stays sink
    → Stays (emit_log log live accepts sink).0
unfolding emit_log
emit_log-Follows log live accepts sink f =
    (elim (rewind_for log live sink)
        as (λ rewound.
          StaysIfOk rewound
          → Leaves (elim rewound [
            | throw e ↦ (sink, throw e)
            | ok rewound ↦ emit_rewound log accepts rewound
          ])) [ throw e ↦ λ _. f | ok rewound ↦ λ g. emit_rewound-Follows log accepts rewound g ])
      (rewind_for-Follows log live sink f)

prune_delivered-Follows :
    (retention durable : ℕ) (sink : Sink)
    → Stays sink
    → Stays (prune_delivered retention durable sink)
unfolding prune_delivered emit
prune_delivered-Follows retention durable sink f =
    on_if Stays (leb durable retention)
      (λ young. Follows-prunes_early sink.delivered sink.trace retention durable young f)
      (λ old. Follows-prunes sink.delivered sink.trace retention durable old f)

save_in_store-Follows :
    (next : EvmIndexCursor) (sink : Sink) → Stays sink → Stays (save_in_store next sink)
unfolding save_in_store
save_in_store-Follows next sink f = on_if Stays sink.has_store (λ stored. f) (λ unstored. f)

pub save_checkpoint-Follows :
    (retention block : ℕ) (sink : Sink) → Stays sink → Stays (save_checkpoint retention block sink)
unfolding save_checkpoint emit
save_checkpoint-Follows retention block sink f =
    let saved = save_in_store (whole_block block) sink in
    prune_delivered-Follows retention block (emit (checkpoints block) saved) (
      Follows-checkpoints saved.delivered saved.trace block
        (save_in_store-Follows (whole_block block) sink f))

save_log_checkpoint-Follows :
    (log : EvmLog) (sink saved : Sink)
    → save_log_checkpoint log sink ≡ ok saved
    → Stays sink
    → Stays saved
save_log_checkpoint-Follows log sink saved h f =
    let (entries, events) = save_log_checkpoint-same log sink saved h in rw (entries, events) f

pub run_call-Follows : (call : SinkCall) (sink : Sink) → Stays sink → Stays (run_call call sink)
unfolding run_call
run_call-Follows (emits log live accepts) sink f = emit_log-Follows log live accepts sink f
run_call-Follows (completes retention block) sink f = save_checkpoint-Follows retention block sink f
run_call-Follows (passes log) sink f =
    (elim (save_log_checkpoint log sink)
        as (λ result.
          save_log_checkpoint log sink ≡ result
          → Stays (elim result [ throw e ↦ sink | ok saved ↦ saved ])) [
            | throw e ↦ λ h. f
            | ok saved ↦ λ h. save_log_checkpoint-Follows log sink saved h f
          ])
      refl
run_call-Follows shuts_down sink f = f

pub new_sink-Follows :
    (has_store : Bool) (cursor : Option EvmIndexCursor) → Stays (new_sink has_store cursor)
unfolding new_sink view NoRepeat Distinct keys lookup
new_sink-Follows has_store cursor = record {
  implements = record { once = tt; same = λ id. refl };
  no_repeat = tt;
  named = tt;
}
