-- ===== src/MessageQueue/Suffix.antt =====
-- What waits is what came last, whole and in order.
use polymarket_cpp_client.Prelude.{
  ℕ, ◌≡◌, refl, sym, ap, ◌∙◌, List, [], ◌∷◌, ◌++◌, append_assoc, append-nil, Bool-cases, inl, inr,
  leb, length, if◌then◌else◌,
}
use polymarket_cpp_client.MessageQueue.{
  Queue, QueuedMessage, Call, pushes, pops, discards, records_drop, closes, resets, create, push,
  take_front, pop, discard_pending, record_drop, close, reset, step, run,
}

-- The messages that an open queue was offered.
abbrev pub offered : Queue → Call → List QueuedMessage
offered q (pushes m) = if q.is_closed then [] else m ∷ []
offered q pops = []
offered q discards = []
offered q records_drop = []
offered q closes = []
offered q (resets limit) = []

unfoldable pub history : Queue → List Call → List QueuedMessage
history q [] = []
history q (c ∷ calls) = offered q c ++ history (step q c) calls

-- `all` ends with the messages that wait.
abbrev pub EndsWith : List QueuedMessage → Queue → Type 0
EndsWith all q = (gone : List QueuedMessage) × (all ≡ gone ++ q.messages)

push-EndsWith :
    (all : List QueuedMessage) (q : Queue) (m : QueuedMessage)
    → EndsWith all q
    → EndsWith (all ++ offered q (pushes m)) (push q m).0
unfolding push
push-EndsWith all q m (gone, e) = elim (Bool-cases q.is_closed) [
  | inl t ↦ rw t (gone, append-nil all ∙ e)
  | inr t ↦ elim (Bool-cases (leb q.limit (length q.messages))) [
    | inl u ↦ rw (t, u) (all ++ m ∷ [], sym (append-nil (all ++ m ∷ [])))
    | inr u ↦ rw (t, u) (gone, ap (λ l. l ++ m ∷ []) e ∙ append_assoc gone q.messages (m ∷ []))
  ]
]

take_front-EndsWith :
    (all : List QueuedMessage) (ms : List QueuedMessage) (q : Queue)
    → q.messages ≡ ms
    → EndsWith all q
    → EndsWith all (take_front ms q).0
unfolding take_front
take_front-EndsWith all [] q same h = h
take_front-EndsWith all (m ∷ ms) q same (gone, e) =
    (gone ++ m ∷ [], e ∙ ap (◌++◌ gone) same ∙ sym (append_assoc gone (m ∷ []) ms))

step-EndsWith :
    (all : List QueuedMessage) (q : Queue) (c : Call)
    → EndsWith all q
    → EndsWith (all ++ offered q c) (step q c)
unfolding step pop discard_pending record_drop close reset
step-EndsWith all q (pushes m) h = push-EndsWith all q m h
step-EndsWith all q pops h = rw append-nil (take_front-EndsWith all q.messages q refl h)
step-EndsWith all q discards h = (all, refl)
step-EndsWith all q records_drop (gone, e) = (gone, append-nil all ∙ e)
step-EndsWith all q closes (gone, e) = (gone, append-nil all ∙ e)
step-EndsWith all q (resets limit) h = (all, refl)

run-EndsWith :
    (all : List QueuedMessage) (q : Queue) (calls : List Call)
    → EndsWith all q
    → EndsWith (all ++ history q calls) (run q calls)
unfolding history run
run-EndsWith all q [] (gone, e) = (gone, append-nil all ∙ e)
run-EndsWith all q (c ∷ calls) h =
    rw (← append_assoc)
      (run-EndsWith (all ++ offered q c) (step q c) calls (step-EndsWith all q c h))

-- After any sequence of calls on a new queue, the messages that wait are the last ones that the open
-- queue was offered, in order and with none missing between them: an overflow drops everything that
-- came before it, never a message in the middle.
pub run-create-EndsWith :
    (limit : ℕ) (calls : List Call)
    → EndsWith (history (create limit) calls) (run (create limit) calls)
unfolding create
run-create-EndsWith limit calls = run-EndsWith [] (create limit) calls ([], refl)
