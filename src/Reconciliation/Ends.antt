-- ===== src/Reconciliation/Ends.antt =====
-- Reasoning on the steps of a scan: what holds of the state when it succeeds, and what holds whatever
-- it returns.
use polymarket_cpp_client.Prelude.{◌≡◌, refl, subst, Bool, true, false, not, ◌&&◌, on_if}
use polymarket_cpp_client.Prelude.Except.{Except, ok, throw, ok-injective}
use polymarket_cpp_client.EventLog.{EvmLog}
use polymarket_cpp_client.Delivery.{Sink}
use polymarket_cpp_client.Delivery.Kept.{save_log_checkpoint-same}
use polymarket_cpp_client.Reconciliation.{Outcome, and_then, attempt, while_current, save_if}

-- What is saved within a block is the cursor alone.
pub save_if-same :
    (persist : Bool) (log : EvmLog) (sink saved : Sink)
    → save_if persist log sink ≡ ok saved
    → (saved.delivered ≡ sink.delivered) × (saved.trace ≡ sink.trace)
unfolding save_if
save_if-same persist log sink saved h =
    on_if
      (λ (result : Except Sink).
        result ≡ ok saved → (saved.delivered ≡ sink.delivered) × (saved.trace ≡ sink.trace))
      (persist && not log.removed) (λ saves r. save_log_checkpoint-same log sink saved r)
      (λ skips r.
        subst (λ (s : Sink). (s.delivered ≡ sink.delivered) × (s.trace ≡ sink.trace))
          (ok-injective r) (refl, refl))
      h

-- The state when the scan went through.
abbrev pub Ends {κ} : (Sink → Type κ) → Outcome → Type κ
Ends Q out = out.1 ≡ ok true → Q out.0

-- The state in any case.
abbrev pub Leaves {κ} : (Sink → Type κ) → Outcome → Type κ
Leaves Q out = Q out.0

module _ {ℓ} (Q : Sink → Type ℓ) where
  pub Ends-and_then {κ} :
      (P : Sink → Type κ) (step : Outcome) (rest : Sink → Outcome)
      → Ends P step
      → ((next : Sink) → P next → Ends Q (rest next))
      → Ends Q (and_then step rest)
  Ends-and_then P (sink, throw e) rest first second h = cc
  Ends-and_then P (sink, ok false) rest first second h = cc
  Ends-and_then P (sink, ok true) rest first second h = second sink (first refl) h

  pub Ends-attempt {κ} :
      {A : Type κ} (result : Except A) (sink : Sink) (rest : A → Outcome)
      → ((a : A) → result ≡ ok a → Ends Q (rest a))
      → Ends Q (attempt result sink rest)
  Ends-attempt (throw e) sink rest each h = cc
  Ends-attempt (ok a) sink rest each h = each a refl h

  pub Ends-while_current :
      (sink : Sink) (rest : Sink → Outcome) → Ends Q (rest sink) → Ends Q (while_current sink rest)
  unfolding while_current
  Ends-while_current sink rest each =
      on_if (Ends Q) sink.current (λ current. each) (λ stopped h. cc)

  pub Leaves-and_then :
      (step : Outcome) (rest : Sink → Outcome)
      → Leaves Q step
      → ((next : Sink) → Q next → Leaves Q (rest next))
      → Leaves Q (and_then step rest)
  Leaves-and_then (sink, throw e) rest first second = first
  Leaves-and_then (sink, ok false) rest first second = first
  Leaves-and_then (sink, ok true) rest first second = second sink first

  pub Leaves-attempt {κ} :
      {A : Type κ} (result : Except A) (sink : Sink) (rest : A → Outcome)
      → Q sink
      → ((a : A) → result ≡ ok a → Leaves Q (rest a))
      → Leaves Q (attempt result sink rest)
  Leaves-attempt (throw e) sink rest first each = first
  Leaves-attempt (ok a) sink rest first each = each a refl

  pub Leaves-while_current :
      (sink : Sink) (rest : Sink → Outcome)
      → Q sink
      → Leaves Q (rest sink)
      → Leaves Q (while_current sink rest)
  unfolding while_current
  Leaves-while_current sink rest first each =
      on_if (Leaves Q) sink.current (λ current. each) (λ stopped. first)
