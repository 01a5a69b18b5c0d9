-- ===== src/Delivery/Follows.antt =====
-- That the map of delivered logs follows the trace, and what each event does to it.
use polymarket_cpp_client.Prelude.{
  All, ℕ, ◌≡◌, inl, inr, refl, sym, ap, ◌∙◌, subst, arith, leb, ◌-◌, true, false, Option,
  if◌then◌else◌, Bool-cases, List, [], ◌∷◌, none, some, Bytes, is_empty, equal_bytes,
  equal_bytes_lem, equal_bytes_refl, Distinct,
}
use polymarket_cpp_client.EventLog.{EvmLog, evm_log_identity}
use polymarket_cpp_client.Delivery.{
  EvmDeliveredLog, Event, delivers, removes, checkpoints, prunes, lookup, erase_delivered, emplace,
  erase_old,
}
use polymarket_cpp_client.Delivery.Entries.{
  keys, lookup-identity, lookup-none-contains, lookup-erase_delivered, All-erase_delivered,
  All-erase_old, All-lookup, Distinct-erase_delivered, Distinct-erase_old, emplace-new,
}
use polymarket_cpp_client.Delivery.View.{
  view, unless_settled, is_settled, NoRepeat, entry_of, Implements, lookup-erase_old,
}

-- An entry's identity is its log's.
abbrev pub IsNamed : EvmDeliveredLog → Type 0
IsNamed e = evm_log_identity e.log ≡ e.identity

pub record Follows (delivered : List EvmDeliveredLog) (trace : List Event) : Type 0 where
  pub implements : Implements delivered trace
  pub no_repeat : NoRepeat trace
  pub named : All IsNamed delivered

-- The view after each event.
view-unnamed :
    (trace : List Event) (log : EvmLog) (block : ℕ) (id : Bytes)
    → evm_log_identity log ≡ []
    → view (delivers log block ∷ trace) id ≡ view trace id
unfolding view is_empty equal_bytes
view-unnamed trace log block [] unnamed = rw unnamed refl
view-unnamed trace log block (c ∷ id) unnamed = rw unnamed refl

view-delivers :
    (trace : List Event) (log : EvmLog) (block : ℕ) (id : Bytes)
    → is_empty (evm_log_identity log) ≡ false
    → view (delivers log block ∷ trace) id
      ≡ (if equal_bytes (evm_log_identity log) id then some (log, block) else view trace id)
unfolding view
view-delivers trace log block id named = elim (Bool-cases (equal_bytes (evm_log_identity log) id)) [
  | inl same ↦
      let full : is_empty id ≡ false =
        subst (λ x. is_empty x ≡ false) (equal_bytes_lem (evm_log_identity log) id same) named in
      rw (same, full) refl
  | inr other ↦ rw other refl
]

-- A log without an identity.
pub Follows-unnamed :
    (entries : List EvmDeliveredLog) (trace : List Event) (log : EvmLog) (block : ℕ)
    → evm_log_identity log ≡ []
    → Follows entries trace
    → Follows entries (delivers log block ∷ trace)
unfolding NoRepeat
Follows-unnamed entries trace log block unnamed f = record {
  implements = record {
    once = f.implements.once;
    same = λ id. f.implements.same id ∙ sym (view-unnamed trace log block id unnamed);
  };
  no_repeat = (inl unnamed, f.no_repeat);
  named = f.named;
}

pub Follows-delivers :
    (entries : List EvmDeliveredLog) (trace : List Event) (log : EvmLog) (block : ℕ)
    → is_empty (evm_log_identity log) ≡ false
    → lookup (evm_log_identity log) entries ≡ none
    → Follows entries trace
    → Follows
        (record { identity = evm_log_identity log; log = log; block = block } ∷ entries)
        (delivers log block ∷ trace)
unfolding NoRepeat Distinct keys lookup
Follows-delivers entries trace log block named new f = record {
  implements = record {
    once = (lookup-none-contains (evm_log_identity log) entries new, f.implements.once);
    same = λ id.
        rw (view-delivers trace log block id named, sym (f.implements.same id))
          (elim (Bool-cases (equal_bytes (evm_log_identity log) id)) [
            | inl same ↦ rw same refl
            | inr other ↦ rw other refl
          ]);
  };
  no_repeat = (inr (sym (f.implements.same (evm_log_identity log)) ∙ ap entry_of new), f.no_repeat);
  named = (refl, f.named);
}

pub Follows-removes :
    (entries : List EvmDeliveredLog) (trace : List Event) (log : EvmLog)
    → Follows entries trace
    → Follows (erase_delivered (evm_log_identity log) entries) (removes log ∷ trace)
unfolding view NoRepeat
Follows-removes entries trace log f = record {
  implements = record {
    once = Distinct-erase_delivered (evm_log_identity log) entries f.implements.once;
    same = λ id.
        rw
          (
            lookup-erase_delivered id (evm_log_identity log) entries f.implements.once,
            sym (f.implements.same id),
          )
          (elim (Bool-cases (equal_bytes (evm_log_identity log) id)) [
            | inl same ↦ rw same refl
            | inr other ↦ rw other refl
          ]);
  };
  no_repeat = f.no_repeat;
  named = All-erase_delivered IsNamed (evm_log_identity log) entries f.named;
}

-- A pruning that erases, and one that comes too early to.
pub Follows-prunes :
    (entries : List EvmDeliveredLog) (trace : List Event) (lookback durable : ℕ)
    → leb durable lookback ≡ false
    → Follows entries trace
    → Follows (erase_old (durable - lookback) entries) (prunes lookback durable ∷ trace)
unfolding view NoRepeat
Follows-prunes entries trace lookback durable far f = record {
  implements = record {
    once = Distinct-erase_old (durable - lookback) entries f.implements.once;
    same = λ id.
        rw
          (lookup-erase_old id lookback durable entries far f.implements.once, f.implements.same id)
          refl;
  };
  no_repeat = f.no_repeat;
  named = All-erase_old IsNamed (durable - lookback) entries f.named;
}

unless_settled-early :
    (lookback durable : ℕ) (entry : Option (EvmLog × ℕ))
    → leb durable lookback ≡ true
    → unless_settled lookback durable entry ≡ entry
unfolding is_settled
unless_settled-early lookback durable none early = refl
unless_settled-early lookback durable (some (log, block)) early = ground arith

pub Follows-prunes_early :
    (entries : List EvmDeliveredLog) (trace : List Event) (lookback durable : ℕ)
    → leb durable lookback ≡ true
    → Follows entries trace
    → Follows entries (prunes lookback durable ∷ trace)
unfolding view NoRepeat
Follows-prunes_early entries trace lookback durable early f = record {
  implements = record {
    once = f.implements.once;
    same = λ id.
        f.implements.same id ∙ sym (unless_settled-early lookback durable (view trace id) early);
  };
  no_repeat = f.no_repeat;
  named = f.named;
}

pub Follows-checkpoints :
    (entries : List EvmDeliveredLog) (trace : List Event) (block : ℕ)
    → Follows entries trace
    → Follows entries (checkpoints block ∷ trace)
unfolding view NoRepeat
Follows-checkpoints entries trace block f = record {
  implements = record { once = f.implements.once; same = λ id. f.implements.same id };
  no_repeat = f.no_repeat;
  named = f.named;
}

-- An entry that is taken out and put back: a callback that refused a removal.
lookup-put_back :
    (id gone : Bytes) (e : EvmDeliveredLog) (entries : List EvmDeliveredLog)
    → Distinct (keys entries)
    → lookup gone entries ≡ some e
    → lookup id (e ∷ erase_delivered gone entries) ≡ lookup id entries
unfolding lookup
lookup-put_back id gone e entries once found =
    let is_gone : equal_bytes e.identity id ≡ equal_bytes gone id =
      ap (λ x. equal_bytes x id)
        (equal_bytes_lem e.identity gone (lookup-identity gone entries e found)) in
    elim (Bool-cases (equal_bytes gone id)) [
      | inl same ↦
          rw (is_gone, same) (sym found ∙ ap (λ x. lookup x entries) (equal_bytes_lem gone id same))
      | inr other ↦ rw (is_gone, other, lookup-erase_delivered id gone entries once, other) refl
    ]

lookup-erase_delivered_self :
    (id : Bytes) (entries : List EvmDeliveredLog)
    → Distinct (keys entries)
    → lookup id (erase_delivered id entries) ≡ none
lookup-erase_delivered_self id entries once =
    rw (lookup-erase_delivered id id entries once, equal_bytes_refl id) refl

pub Follows-put_back :
    (entries : List EvmDeliveredLog) (trace : List Event) (gone : Bytes) (e : EvmDeliveredLog)
    → lookup gone entries ≡ some e
    → Follows entries trace
    → Follows (emplace e (erase_delivered gone entries)) trace
unfolding Distinct keys
Follows-put_back entries trace gone e found f =
    let is_gone : e.identity ≡ gone =
      equal_bytes_lem e.identity gone (lookup-identity gone entries e found) in
    let absent : lookup e.identity (erase_delivered gone entries) ≡ none =
      rw is_gone (lookup-erase_delivered_self gone entries f.implements.once) in
    rw (emplace-new e (erase_delivered gone entries) absent) (record {
      implements = record {
        once = (
          lookup-none-contains e.identity (erase_delivered gone entries) absent,
          Distinct-erase_delivered gone entries f.implements.once,
        );
        same = λ id.
            ap entry_of (lookup-put_back id gone e entries f.implements.once found)
            ∙ f.implements.same id;
      };
      no_repeat = f.no_repeat;
      named = (
        All-lookup IsNamed gone entries e f.named found,
        All-erase_delivered IsNamed gone entries f.named,
      );
    })
