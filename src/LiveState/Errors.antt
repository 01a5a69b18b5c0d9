-- ===== src/LiveState/Errors.antt =====
-- The queue of delivery errors: bounded, and no occurrence is lost within a generation.
use polymarket_cpp_client.Prelude.{
  ℕ, suc, ◌+◌, ◌≤◌, ltb, ◌==◌, ◌≡◌, refl, ◌∙◌, subst, arith, true, on_if, Bool-cases, inl, inr,
  if◌then◌else◌, List, [], ◌∷◌, ◌++◌, Bytes, length, length-append,
}
use polymarket_cpp_client.LiveState.{
  EvmDeliveryError, evm_delivery_error_limit, ErrorQueue, for_generation, is_last_message,
  count_last, make_room, push_error, queue_delivery_error,
}

-- Errors one after the other, each with its generation.
unfoldable pub queue_all : List (ℕ × Bytes) → ErrorQueue → ErrorQueue
queue_all [] queue = queue
queue_all ((generation, message) ∷ calls) queue =
    queue_all calls (queue_delivery_error generation message queue)

-- How many calls at the end are of one generation, after `count` calls of `generation`.
unfoldable pub last_run : ℕ → ℕ → List (ℕ × Bytes) → ℕ
last_run generation count [] = count
last_run generation count ((next, message) ∷ calls) =
    last_run next (suc (if generation == next then count else 0)) calls

unfoldable pub empty_queue : ℕ → ErrorQueue
empty_queue generation = record { errors = []; coalesced = 0; generation = generation }

unfoldable pub occurrences : List EvmDeliveryError → ℕ
occurrences [] = 0
occurrences (e ∷ errors) = e.occurrences + occurrences errors

-- What is queued or has been pushed out.
unfoldable pub total : ErrorQueue → ℕ
total queue = occurrences queue.errors + queue.coalesced

occurrences-append :
    (errors more : List EvmDeliveryError)
    → occurrences (errors ++ more) ≡ occurrences errors + occurrences more
unfolding occurrences
occurrences-append [] more = omega arith
occurrences-append (e ∷ errors) more = omega (arith, occurrences-append errors more)

length-count_last : (errors : List EvmDeliveryError) → length (count_last errors) ≡ length errors
unfolding count_last
length-count_last [] = refl
length-count_last (e ∷ []) = refl
length-count_last (e ∷ f ∷ errors) = omega (arith, length-count_last (f ∷ errors))

occurrences-count_last :
    (message : Bytes) (errors : List EvmDeliveryError)
    → is_last_message message errors ≡ true
    → occurrences (count_last errors) ≡ suc (occurrences errors)
unfolding count_last is_last_message occurrences
occurrences-count_last message [] h = cc
occurrences-count_last message (e ∷ []) h = omega arith
occurrences-count_last message (e ∷ f ∷ errors) h =
    omega (arith, occurrences-count_last message (f ∷ errors) h)

pub record IsSound (count : ℕ) (queue : ErrorQueue) : Type 0 where
  pub bound : length queue.errors ≤ evm_delivery_error_limit
  pub counts : total queue ≡ count

-- There is room for one, and nothing is lost.
HasRoom : ErrorQueue → ErrorQueue → Type 0
HasRoom queue room =
    (length room.errors + 1 ≤ evm_delivery_error_limit) × (total room ≡ total queue)

make_room-HasRoom :
    (errors : List EvmDeliveryError) (coalesced generation : ℕ)
    → length errors ≤ evm_delivery_error_limit
    → HasRoom
        (record { errors = errors; coalesced = coalesced; generation = generation })
        (make_room (record { errors = errors; coalesced = coalesced; generation = generation }))
unfolding make_room total occurrences HasRoom
make_room-HasRoom [] coalesced generation bound = (omega arith, refl)
make_room-HasRoom (e ∷ errors) coalesced generation bound =
    let queue : ErrorQueue = record {
      errors = e ∷ errors;
      coalesced = coalesced;
      generation = generation;
    } in
    on_if (HasRoom queue) (ltb (length (e ∷ errors)) evm_delivery_error_limit)
      (λ below. (ground arith, refl)) (λ full. (omega arith, omega arith))

make_room-generation :
    (errors : List EvmDeliveryError) (coalesced generation : ℕ)
    → (make_room
        (record { errors = errors; coalesced = coalesced; generation = generation })).generation
      ≡ generation
unfolding make_room
make_room-generation [] coalesced generation = refl
make_room-generation (e ∷ errors) coalesced generation =
    on_if (λ (room : ErrorQueue). room.generation ≡ generation)
      (ltb (length (e ∷ errors)) evm_delivery_error_limit) (λ below. refl) (λ full. refl)

pub push_error-IsSound :
    (generation count : ℕ) (message : Bytes) (queue : ErrorQueue)
    → IsSound count queue
    → IsSound (suc count) (push_error generation message queue)
unfolding push_error total occurrences HasRoom
push_error-IsSound generation count message queue sound =
    on_if (IsSound (suc count)) (is_last_message message queue.errors)
      (λ repeated. record {
        bound = rw (length-count_last queue.errors) sound.bound;
        counts =
            rw (occurrences-count_last message queue.errors repeated) (omega (arith, sound.counts));
      })
      (λ fresh.
        let room : HasRoom queue (make_room queue) =
          make_room-HasRoom queue.errors queue.coalesced queue.generation sound.bound in
        record {
          bound = rw (length-append (make_room queue).errors _) room.0;
          counts =
              rw (occurrences-append (make_room queue).errors _)
                (omega (arith, room.1, sound.counts));
        })

-- An error of another generation clears the queue, and the count with it.
for_generation-IsSound :
    (generation count : ℕ) (queue : ErrorQueue)
    → IsSound count queue
    → IsSound
        (if queue.generation == generation then count else 0)
        (for_generation generation queue)
unfolding for_generation total occurrences
for_generation-IsSound generation count queue sound =
    elim (Bool-cases (queue.generation == generation)) [
      | inl same ↦ rw same sound
      | inr other ↦ rw other (record { bound = omega arith; counts = refl })
    ]

for_generation-generation :
    (generation : ℕ) (queue : ErrorQueue)
    → (for_generation generation queue).generation ≡ generation
unfolding for_generation
for_generation-generation generation queue = ground arith

push_error-generation :
    (generation : ℕ) (message : Bytes) (queue : ErrorQueue)
    → (push_error generation message queue).generation ≡ queue.generation
unfolding push_error
push_error-generation generation message queue =
    on_if (λ (pushed : ErrorQueue). pushed.generation ≡ queue.generation)
      (is_last_message message queue.errors) (λ repeated. refl)
      (λ fresh. make_room-generation queue.errors queue.coalesced queue.generation)

queue_all-IsSound :
    (count : ℕ) (calls : List (ℕ × Bytes)) (queue : ErrorQueue)
    → IsSound count queue
    → IsSound (last_run queue.generation count calls) (queue_all calls queue)
unfolding queue_all last_run queue_delivery_error
queue_all-IsSound count [] queue sound = sound
queue_all-IsSound count ((generation, message) ∷ calls) queue sound =
    let cleared = for_generation generation queue in
    let kept = if queue.generation == generation then count else 0 in
    let pushed = push_error generation message cleared in
    let same : pushed.generation ≡ generation =
      push_error-generation generation message cleared
      ∙ for_generation-generation generation queue in
    let next : IsSound (suc kept) pushed =
      push_error-IsSound generation kept message cleared
        (for_generation-IsSound generation count queue sound) in
    subst (λ g. IsSound (last_run g (suc kept) calls) (queue_all calls pushed)) same
      (queue_all-IsSound (suc kept) calls pushed next)

-- Whatever errors are queued from an empty queue on, at most 64 entries wait, and their occurrences
-- together with the count of those that were pushed out are as many as the errors since the last change of
-- generation, which clears both.
pub queue_all-total :
    (generation : ℕ) (calls : List (ℕ × Bytes))
    → (length (queue_all calls (empty_queue generation)).errors ≤ evm_delivery_error_limit)
      × (total (queue_all calls (empty_queue generation)) ≡ last_run generation 0 calls)
unfolding empty_queue total occurrences
queue_all-total generation calls =
    let sound : IsSound (last_run generation 0 calls) (queue_all calls (empty_queue generation)) =
      queue_all-IsSound 0 calls (empty_queue generation)
        (record { bound = omega arith; counts = refl }) in
    (sound.bound, sound.counts)
