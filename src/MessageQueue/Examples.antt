-- ===== src/MessageQueue/Examples.antt =====
-- A queue of two messages that is offered three.
use polymarket_cpp_client.Prelude.{ℕ, ◌≡◌, refl, [], ◌∷◌, List}
use polymarket_cpp_client.MessageQueue.{
  QueuedMessage, Call, pushes, create, run, step, push, at_least_one,
}
use polymarket_cpp_client.MessageQueue.Bounds.{IsBounded, run-create-IsBounded}
use polymarket_cpp_client.MessageQueue.Suffix.{EndsWith, history, run-create-EndsWith}

abbrev message : ℕ → QueuedMessage
message n = record { payload = n ∷ []; generation = 1 }

abbrev overflow : List Call
overflow = pushes (message 1) ∷ pushes (message 2) ∷ pushes (message 3) ∷ pushes (message 4) ∷ []

last_message : (run (create 2) overflow).messages ≡ message 4 ∷ []
unfolding run step push create at_least_one
last_message = refl

run-create-IsBounded_example : IsBounded (run (create 2) overflow)
run-create-IsBounded_example = run-create-IsBounded 2 overflow

run-create-EndsWith_example : EndsWith (history (create 2) overflow) (run (create 2) overflow)
run-create-EndsWith_example = run-create-EndsWith 2 overflow
