-- ===== src/Reconciliation/Canonical.antt =====
-- A scan of a range that goes through leaves no orphan in it.
use polymarket_cpp_client.Prelude.{
  leb, ℕ, ◌≡◌, refl, sym, ◌∙◌, subst, arith, Bool, true, false, not, ◌&&◌, ◌||◌, on_if, List, [],
  ◌∷◌, Bytes, equal_bytes, equal_bytes_refl, contains, Distinct, All,
}
use polymarket_cpp_client.Prelude.Except.{ok, ok-injective}
use polymarket_cpp_client.Ranges.{BlockRange}
use polymarket_cpp_client.EventLog.{EvmLog, evm_log_identity, evm_log_before, sort_logs}
use polymarket_cpp_client.EventLog.Sorting.{any, any-sort_logs}
use polymarket_cpp_client.Delivery.{EvmDeliveredLog, Sink, emit_log}
use polymarket_cpp_client.Delivery.Entries.{keys}
use polymarket_cpp_client.Delivery.Follows.{IsNamed}
use polymarket_cpp_client.Delivery.Kept.{emit_log-All, save_checkpoint-All}
use polymarket_cpp_client.Reconciliation.{
  World, Outcome, while_current, stop_if, dispatch_log, canonical_ids, is_orphan, orphans_of,
  dispatch_orphans, save_if, deliver_log, deliver_canonical, finish_range, settle_range, fetch,
  scan_gap_range,
}
use polymarket_cpp_client.Reconciliation.Ends.{
  Ends, save_if-same, Ends-and_then, Ends-attempt, Ends-while_current,
}
use polymarket_cpp_client.Reconciliation.Orphans.{
  IsCovered, is_covered, stop_if-delivered, AwaitsOrphans, All-orphans_of, removed_orphans_of,
  dispatch_orphans-Ends,
}

-- The identity is one of a log that the node has.
contains-canonical_ids :
    (id : Bytes) (logs : List EvmLog)
    → contains id (canonical_ids logs)
      ≡ any (λ log. not log.removed && equal_bytes id (evm_log_identity log)) logs
unfolding contains canonical_ids any
contains-canonical_ids id [] = refl
contains-canonical_ids id (log ∷ logs) = ground (arith, contains-canonical_ids id logs)

contains-sorted_ids :
    (id : Bytes) (logs canonical : List EvmLog)
    → sort_logs evm_log_before logs ≡ ok canonical
    → contains id (canonical_ids canonical) ≡ contains id (canonical_ids logs)
contains-sorted_ids id logs canonical h =
    contains-canonical_ids id canonical
    ∙ any-sort_logs (λ log. not log.removed && equal_bytes id (evm_log_identity log)) evm_log_before
        logs canonical h
    ∙ sym (contains-canonical_ids id logs)

IsKnown : BlockRange → List Bytes → EvmDeliveredLog → Type 0
IsKnown range ids e = is_orphan range ids e ≡ false

Known : BlockRange → List Bytes → Sink → Type 0
Known range ids sink = All (IsKnown range ids) sink.delivered

-- A log that the node has is known when it is delivered.
dispatch_log-Known :
    (world : World) (range : BlockRange) (ids : List Bytes) (log : EvmLog) (sink : Sink)
    → (log.removed ≡ false → contains (evm_log_identity log) ids ≡ true)
    → Known range ids sink
    → Known range ids (dispatch_log world log sink).0
unfolding dispatch_log Known IsKnown is_orphan stop_if
dispatch_log-Known world range ids log sink canonical known =
    let after : All (IsKnown range ids) (emit_log log false (world.accepts log) sink).0.delivered =
      emit_log-All (IsKnown range ids) log (world.accepts log) sink
        (λ there e same.
          let here : contains e.identity ids ≡ true = rw same (canonical there) in
          rw here (ground arith))
        known in
    on_if (λ (out : Outcome). Known range ids out.0) (sink.shutdown || not sink.current)
      (λ idle. known)
      (λ runs. on_if (Known range ids) (world.stops_at log) (λ stops. after) (λ goes. after))

deliver_log-Known :
    (world : World) (persist : Bool) (range : BlockRange) (ids : List Bytes) (log : EvmLog)
    (sink : Sink)
    → (log.removed ≡ false → contains (evm_log_identity log) ids ≡ true)
    → Known range ids sink
    → Ends (Known range ids) (deliver_log world persist log sink)
unfolding deliver_log Known
deliver_log-Known world persist range ids log sink canonical known =
    let sent = dispatch_log world log sink in
    let Q = Known range ids in
    Ends-attempt Q sent.1 sent.0 _ (λ delivered _. Ends-while_current Q sent.0 _ (
      Ends-attempt Q (save_if persist log sent.0) sent.0 _ (λ saved e _.
        rw ((save_if-same persist log sent.0 saved e).0)
          (dispatch_log-Known world range ids log sink canonical known))))

true-ne-false : true ≡ false → ⊥
true-ne-false h = cc

-- Whatever the callbacks do to the other logs.
deliver_canonical-Known :
    (world : World) (persist : Bool) (range : BlockRange) (ids : List Bytes) (logs : List EvmLog)
    (sink : Sink)
    → ((id : Bytes) → contains id (canonical_ids logs) ≡ true → contains id ids ≡ true)
    → Known range ids sink
    → Ends (Known range ids) (deliver_canonical world persist logs sink)
unfolding deliver_canonical canonical_ids contains Known
deliver_canonical-Known world persist range ids [] sink among known = λ h. known
deliver_canonical-Known world persist range ids (log ∷ logs) sink among known =
    let canonical : log.removed ≡ false → contains (evm_log_identity log) ids ≡ true = λ there.
      among (evm_log_identity log) (
        on_if (λ ids. contains (evm_log_identity log) ids ≡ true) log.removed
          (λ gone. absurd (true-ne-false (sym gone ∙ there)))
          (λ _. ground (arith, equal_bytes_refl (evm_log_identity log)))) in
    Ends-and_then (Known range ids) (Known range ids)
      (while_current sink (deliver_log world persist log)) (deliver_canonical world persist logs)
      (Ends-while_current (Known range ids) sink (deliver_log world persist log)
        (deliver_log-Known world persist range ids log sink canonical known))
      (λ next k.
        deliver_canonical-Known world persist range ids logs next
          (λ id h. among id (
            on_if (λ ids. contains id ids ≡ true) log.removed (λ gone. h)
              (λ there. rw h (ground arith))))
          k)

finish_range-Known :
    (lookback : ℕ) (persist : Bool) (range : BlockRange) (ids : List Bytes) (sink : Sink)
    → Known range ids sink
    → Ends (Known range ids) (finish_range lookback persist range sink)
unfolding finish_range Known
finish_range-Known lookback persist range ids sink known =
    Ends-while_current (Known range ids) sink _ (λ _.
      on_if (Known range ids) persist
        (λ saves. save_checkpoint-All (IsKnown range ids) lookback range.to sink known)
        (λ skips. known))

-- No orphan is left to cover.
All-Known :
    (range : BlockRange) (ids : List Bytes) (entries : List EvmDeliveredLog)
    → All (IsCovered range ids []) entries
    → All (IsKnown range ids) entries
unfolding IsCovered is_covered any IsKnown
All-Known range ids [] all = tt
All-Known range ids (e ∷ entries) (c, all) = (ground arith, All-Known range ids entries all)

-- The round from the logs that the node sent.
settle_range-Known :
    (world : World) (lookback : ℕ) (persist : Bool) (range : BlockRange) (canonical : List EvmLog)
    (orphans : List EvmLog) (sink : Sink)
    → Distinct (keys sink.delivered)
    → All IsNamed sink.delivered
    → sort_logs evm_log_before (orphans_of range (canonical_ids canonical) sink.delivered)
      ≡ ok orphans
    → Ends
        (Known range (canonical_ids canonical))
        (settle_range world lookback persist range canonical orphans sink)
unfolding Known settle_range
settle_range-Known world lookback persist range canonical orphans sink once named sorted =
    let ids = canonical_ids canonical in
    let found = orphans_of range ids sink.delivered in
    let among : (test : EvmLog → Bool) → any test found ≡ true → any test orphans ≡ true =
      λ test h. any-sort_logs test evm_log_before found orphans sorted ∙ h in
    let gone : any (λ log. not log.removed) orphans ≡ false =
      any-sort_logs (λ log. not log.removed) evm_log_before found orphans sorted
      ∙ removed_orphans_of range ids sink.delivered in
    Ends-and_then (Known range ids) (AwaitsOrphans range ids [])
      (dispatch_orphans world orphans sink) _
      (dispatch_orphans-Ends world range ids orphans sink gone (record {
        once = once;
        cover = All-orphans_of range ids sink.delivered orphans named among;
      }))
      (λ cleared w.
        Ends-and_then (Known range ids) (Known range ids)
          (deliver_canonical world persist canonical cleared) (finish_range lookback persist range)
          (deliver_canonical-Known world persist range ids canonical cleared (λ id h. h)
            (All-Known range ids cleared.delivered w.cover))
          (λ told k. finish_range-Known lookback persist range ids told k))

-- The entry stands outside the range, or the node sent its log and did not mark it as removed.
unfoldable pub is_known : BlockRange → List EvmLog → EvmDeliveredLog → Bool
is_known range logs e =
    not (leb range.from e.block && leb e.block range.to)
    || any (λ log. not log.removed && equal_bytes e.identity (evm_log_identity log)) logs

unfoldable pub has_no_orphan : BlockRange → List EvmLog → List EvmDeliveredLog → Bool
has_no_orphan range logs [] = true
has_no_orphan range logs (e ∷ entries) = is_known range logs e && has_no_orphan range logs entries

has_no_orphan-Known :
    (range : BlockRange) (logs canonical : List EvmLog) (entries : List EvmDeliveredLog)
    → sort_logs evm_log_before logs ≡ ok canonical
    → All (IsKnown range (canonical_ids canonical)) entries
    → has_no_orphan range logs entries ≡ true
unfolding has_no_orphan is_known IsKnown is_orphan
has_no_orphan-Known range logs canonical [] sorted all = refl
has_no_orphan-Known range logs canonical (e ∷ entries) sorted (known, all) =
    let listed : contains e.identity (canonical_ids canonical)
        ≡ any (λ log. not log.removed && equal_bytes e.identity (evm_log_identity log)) logs =
      contains-sorted_ids e.identity logs canonical sorted
      ∙ contains-canonical_ids e.identity logs in
    rw (is_known, sym listed, has_no_orphan-Known range logs canonical entries sorted all)
      (ground arith)

pub scan_gap_range-Ends :
    (world : World) (lookback : ℕ) (persist : Bool) (range : BlockRange) (sink : Sink)
    (logs : List EvmLog)
    → Distinct (keys sink.delivered)
    → All IsNamed sink.delivered
    → world.get_logs range ≡ ok logs
    → Ends
        (λ after. has_no_orphan range logs after.delivered ≡ true)
        (scan_gap_range world lookback persist range sink)
unfolding scan_gap_range fetch Known
scan_gap_range-Ends world lookback persist range sink logs once named sent =
    let Q = (λ (after : Sink). has_no_orphan range logs after.delivered ≡ true) in
    let next = stop_if (world.stops_during range) sink in
    let same : next.delivered ≡ sink.delivered =
      stop_if-delivered (world.stops_during range) sink in
    let next_once : Distinct (keys next.delivered) = rw same once in
    let next_named : All IsNamed next.delivered = rw same named in
    Ends-while_current Q sink _ (
      Ends-attempt Q (world.get_logs range) sink _ (λ fetched e.
        let is_logs : fetched ≡ logs = ok-injective (sym e ∙ sent) in
        Ends-while_current Q next _ (
          Ends-attempt Q (sort_logs evm_log_before fetched) next _ (λ canonical f.
            Ends-attempt Q
              (sort_logs evm_log_before (orphans_of range (canonical_ids canonical) next.delivered))
              next _
              (λ orphans g h.
                subst
                  (λ l.
                    has_no_orphan range l
                      (settle_range world lookback persist range canonical orphans next).0.delivered
                    ≡ true)
                  is_logs
                  (has_no_orphan-Known range fetched canonical _ f (
                    settle_range-Known world lookback persist range canonical orphans next next_once
                      next_named g h)))))))
