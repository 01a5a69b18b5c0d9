-- ===== src/Reconciliation/Orphans.antt =====
-- The removals of a scan: every entry of the range that the node does not have is taken out.
use polymarket_cpp_client.Prelude.{
  ℕ, ◌≡◌, inl, inr, refl, ap, ◌∙◌, subst, arith, Bool, true, false, not, ◌||◌, Bool-cases, on_if,
  List, [], ◌∷◌, none, some, Bytes, equal_bytes, equal_bytes_lem, equal_bytes_refl,
  equal_bytes_symm, contains, Distinct, All,
}
use polymarket_cpp_client.Prelude.Except.{ok, throw, runtime_error}
use polymarket_cpp_client.Ranges.{BlockRange}
use polymarket_cpp_client.EventLog.{EvmLog, evm_log_identity, evm_log_block}
use polymarket_cpp_client.EventLog.Sorting.{any}
use polymarket_cpp_client.Delivery.{
  EvmDeliveredLog, Sink, lookup, erase_delivered, emplace, emit, rewind_for, emit_removal,
  emit_claimed, emit_rewound, emit_log,
}
use polymarket_cpp_client.Delivery.Entries.{keys, Distinct-erase_delivered}
use polymarket_cpp_client.Delivery.Follows.{IsNamed}
use polymarket_cpp_client.Reconciliation.Ends.{Ends, Ends-and_then}
use polymarket_cpp_client.Reconciliation.{
  World, stop_if, dispatch_log, is_orphan, orphans_of, dispatch_orphans,
}

unfoldable pub same_identity : Bytes → EvmLog → Bool
same_identity id log = equal_bytes id (evm_log_identity log)

-- The entry is no orphan, or its orphan is among the logs.
unfoldable pub is_covered : BlockRange → List Bytes → List EvmLog → EvmDeliveredLog → Bool
is_covered range ids logs e = not (is_orphan range ids e) || any (same_identity e.identity) logs

unfoldable pub IsCovered : BlockRange → List Bytes → List EvmLog → EvmDeliveredLog → Type 0
IsCovered range ids logs e = is_covered range ids logs e ≡ true

-- Only the flag is set on the log of an entry.
same_identity-orphan :
    (e : EvmDeliveredLog)
    → IsNamed e
    → same_identity e.identity (record e.log { removed = true }) ≡ true
unfolding same_identity evm_log_identity
same_identity-orphan e name = ap (equal_bytes e.identity) name ∙ equal_bytes_refl e.identity

-- Each entry's orphan is found, also after the others.
pub All-orphans_of :
    (range : BlockRange) (ids : List Bytes) (entries : List EvmDeliveredLog) (logs : List EvmLog)
    → All IsNamed entries
    → ((test : EvmLog → Bool)
        → any test (orphans_of range ids entries) ≡ true
        → any test logs ≡ true)
    → All (IsCovered range ids logs) entries
unfolding orphans_of any is_covered same_identity IsCovered
All-orphans_of range ids [] logs named among = tt
All-orphans_of range ids (e ∷ entries) logs (name, named) among =
    elim (Bool-cases (is_orphan range ids e)) [
      | inl orphan ↦
          let found : any (same_identity e.identity) logs ≡ true =
            among (same_identity e.identity) (rw orphan (rw (same_identity-orphan e name) refl)) in
          (
            rw (orphan, found) refl,
            All-orphans_of range ids entries logs named
                (λ test h. among test (rw orphan (rw h (ground arith)))),
          )
      | inr kept ↦ (
        rw kept refl,
        All-orphans_of range ids entries logs named (λ test h. among test (rw kept h)),
      )
    ]

-- All of them are removals.
pub removed_orphans_of :
    (range : BlockRange) (ids : List Bytes) (entries : List EvmDeliveredLog)
    → any (λ log. not log.removed) (orphans_of range ids entries) ≡ false
unfolding orphans_of any
removed_orphans_of range ids [] = refl
removed_orphans_of range ids (e ∷ entries) =
    on_if (λ logs. any (λ log. not log.removed) logs ≡ false) (is_orphan range ids e)
      (λ orphan. removed_orphans_of range ids entries)
      (λ kept. removed_orphans_of range ids entries)

-- The entries of other identities.
All-others :
    (range : BlockRange) (ids : List Bytes) (orphan : EvmLog) (orphans : List EvmLog)
    (entries : List EvmDeliveredLog)
    → contains (evm_log_identity orphan) (keys entries) ≡ false
    → All (IsCovered range ids (orphan ∷ orphans)) entries
    → All (IsCovered range ids orphans) entries
unfolding contains keys any is_covered same_identity IsCovered
All-others range ids orphan orphans [] other all = tt
All-others range ids orphan orphans (e ∷ entries) other (c, all) = (
  ground (arith, equal_bytes_symm e.identity (evm_log_identity orphan)),
  All-others range ids orphan orphans entries (ground arith) all,
)

-- One orphan less.
All-erase-IsCovered :
    (range : BlockRange) (ids : List Bytes) (orphan : EvmLog) (orphans : List EvmLog)
    (entries : List EvmDeliveredLog)
    → Distinct (keys entries)
    → All (IsCovered range ids (orphan ∷ orphans)) entries
    → All (IsCovered range ids orphans) (erase_delivered (evm_log_identity orphan) entries)
unfolding erase_delivered Distinct keys any is_covered same_identity IsCovered
All-erase-IsCovered range ids orphan orphans [] d all = tt
All-erase-IsCovered range ids orphan orphans (e ∷ entries) (new, d) (c, all) =
    elim (Bool-cases (equal_bytes e.identity (evm_log_identity orphan))) [
      | inl hit ↦ rw hit (
          All-others range ids orphan orphans entries
            (subst (λ x. contains x (keys entries) ≡ false)
              (equal_bytes_lem e.identity (evm_log_identity orphan) hit) new)
            all)
      | inr miss ↦
          rw miss (ground (arith, miss), All-erase-IsCovered range ids orphan orphans entries d all)
    ]

-- A removal that succeeds takes the entry out.
emit_claimed-removed :
    (log : EvmLog) (block : ℕ) (accepts : Bool) (sink : Sink)
    → log.removed ≡ true
    → Ends
        (λ after. after.delivered ≡ erase_delivered (evm_log_identity log) sink.delivered)
        (emit_claimed log block accepts sink)
unfolding emit_claimed emit_removal emit
emit_claimed-removed log block accepts sink gone =
    let Q =
      (λ (after : Sink). after.delivered ≡ erase_delivered (evm_log_identity log) sink.delivered) in
    on_if (Ends Q) log.removed
      (λ _.
        on_if (Ends Q) accepts (λ yes h. refl)
          (λ no.
            elim (lookup (evm_log_identity log) sink.delivered)
              as (λ found. Ends Q (elim found [
                | none ↦ (sink, throw (runtime_error "log callback"))
                | some e ↦ (
                  record sink {
                    delivered = emplace e (erase_delivered (evm_log_identity log) sink.delivered);
                  },
                  throw (runtime_error "log callback"),
                )
              ])) [ none ↦ λ h. cc | some e ↦ λ h. cc ]))
      (λ kept h. cc)

emit_log-removed :
    (log : EvmLog) (accepts : Bool) (sink : Sink)
    → log.removed ≡ true
    → Ends
        (λ after. after.delivered ≡ erase_delivered (evm_log_identity log) sink.delivered)
        (emit_log log false accepts sink)
unfolding emit_log rewind_for emit_rewound
emit_log-removed log accepts sink gone =
    let Q =
      (λ (after : Sink). after.delivered ≡ erase_delivered (evm_log_identity log) sink.delivered) in
    on_if (Ends Q) sink.shutdown (λ down h. cc)
      (λ up.
        elim (evm_log_block log)
          as (λ read. Ends Q (elim read [
            | throw e ↦ (sink, throw e)
            | ok block ↦ emit_claimed log block accepts sink
          ])) [ throw e ↦ λ h. cc | ok block ↦ emit_claimed-removed log block accepts sink gone ])

pub stop_if-delivered :
    (stops : Bool) (sink : Sink) → (stop_if stops sink).delivered ≡ sink.delivered
unfolding stop_if
stop_if-delivered true sink = refl
stop_if-delivered false sink = refl

dispatch_log-removed :
    (world : World) (log : EvmLog) (sink : Sink)
    → log.removed ≡ true
    → Ends
        (λ after. after.delivered ≡ erase_delivered (evm_log_identity log) sink.delivered)
        (dispatch_log world log sink)
unfolding dispatch_log
dispatch_log-removed world log sink gone =
    on_if (Ends (λ after. after.delivered ≡ erase_delivered (evm_log_identity log) sink.delivered))
      (sink.shutdown || not sink.current) (λ idle h. cc)
      (λ runs h.
        stop_if-delivered (world.stops_at log) (emit_log log false (world.accepts log) sink).0
        ∙ emit_log-removed log (world.accepts log) sink gone h)

-- The entries that the orphans cover, each identity once.
pub record AwaitsOrphans (range : BlockRange) (ids : List Bytes) (orphans : List EvmLog)
    (sink : Sink) : Type 0 where
  pub once : Distinct (keys sink.delivered)
  pub cover : All (IsCovered range ids orphans) sink.delivered

pub dispatch_orphans-Ends :
    (world : World) (range : BlockRange) (ids : List Bytes) (orphans : List EvmLog) (sink : Sink)
    → any (λ log. not log.removed) orphans ≡ false
    → AwaitsOrphans range ids orphans sink
    → Ends (AwaitsOrphans range ids []) (dispatch_orphans world orphans sink)
unfolding dispatch_orphans any
dispatch_orphans-Ends world range ids [] sink gone w = λ h. w
dispatch_orphans-Ends world range ids (orphan ∷ orphans) sink gone w =
    let entries = erase_delivered (evm_log_identity orphan) sink.delivered in
    Ends-and_then (AwaitsOrphans range ids []) (λ after. after.delivered ≡ entries)
      (dispatch_log world orphan sink) (dispatch_orphans world orphans)
      (dispatch_log-removed world orphan sink (ground arith))
      (λ next same. dispatch_orphans-Ends world range ids orphans next (ground arith) (record {
        once = rw same (Distinct-erase_delivered (evm_log_identity orphan) sink.delivered w.once);
        cover =
            rw same (All-erase-IsCovered range ids orphan orphans sink.delivered w.once w.cover);
      }))
