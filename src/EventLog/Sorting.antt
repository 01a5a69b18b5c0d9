-- ===== src/EventLog/Sorting.antt =====
-- Sorting logs keeps them: whatever holds of one of the logs holds of one of the sorted logs.
use polymarket_cpp_client.Prelude.{
  ◌≡◌, refl, sym, ap, ◌∙◌, arith, Bool, false, ◌||◌, if◌then◌else◌, List, [], ◌∷◌, on_if,
}
use polymarket_cpp_client.Prelude.Except.{Except, ok, ◌>>=◌, on_bind, ok-injective}
use polymarket_cpp_client.EventLog.{EvmLog, insert_log, sort_logs}

unfoldable pub any : (EvmLog → Bool) → List EvmLog → Bool
any test [] = false
any test (log ∷ logs) = test log || any test logs

any-insert_log :
    (test : EvmLog → Bool) (before : EvmLog → EvmLog → Except Bool) (log : EvmLog)
    (logs sorted : List EvmLog)
    → insert_log before log logs ≡ ok sorted
    → any test sorted ≡ (test log || any test logs)
unfolding insert_log any
any-insert_log test before log [] sorted h = rw (sym (ok-injective h)) refl
any-insert_log test before log (first ∷ logs) sorted h =
    on_bind (before first log)
      (λ later.
        if later
        then (insert_log before log logs >>= λ rest. ok (first ∷ rest))
        else ok (log ∷ first ∷ logs))
      h
      (λ later compared result.
        on_if
          (λ inserted.
            inserted ≡ ok sorted → any test sorted ≡ (test log || (test first || any test logs)))
          later
          (λ yes r.
            on_bind (insert_log before log logs) (λ rest. ok (first ∷ rest)) r
              (λ rest e f.
                rw (sym (ok-injective f), any-insert_log test before log logs rest e)
                  (ground arith)))
          (λ no r. ap (any test) (sym (ok-injective r)) ∙ ground arith) result)

pub any-sort_logs :
    (test : EvmLog → Bool) (before : EvmLog → EvmLog → Except Bool) (logs sorted : List EvmLog)
    → sort_logs before logs ≡ ok sorted
    → any test sorted ≡ any test logs
unfolding sort_logs any
any-sort_logs test before [] sorted h = rw (sym (ok-injective h)) refl
any-sort_logs test before (log ∷ logs) sorted h =
    on_bind (sort_logs before logs) (insert_log before log) h (λ rest e f.
      any-insert_log test before log rest sorted f
      ∙ ap (λ b. test log || b) (any-sort_logs test before logs rest e))
