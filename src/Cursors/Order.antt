-- ===== src/Cursors/Order.antt =====
-- Saving only ever moves a cursor forward.
use polymarket_cpp_client.Prelude.{
  ℕ, ◌≡◌, ◌≤◌, ◌<◌, ◌⊎◌, inl, inr, refl, arith, ltb, true, false, Bool-cases, List, [], ◌∷◌, Option,
  none, some, Bytes, equal_bytes, equal_bytes_lem, equal_bytes_refl,
}
use polymarket_cpp_client.Cursors.{
  EvmLogPosition, EvmIndexCursor, position_advances, last_log_advances, cursor_advances, load, save,
  save_cursor, Saving, saves, saves_cursor, save_all,
}

equal_bytes_trans :
    (xs ys zs : Bytes)
    → equal_bytes ys xs ≡ true
    → equal_bytes zs ys ≡ true
    → equal_bytes zs xs ≡ true
equal_bytes_trans xs ys zs h k =
    rw (equal_bytes_lem zs ys k, equal_bytes_lem ys xs h) (equal_bytes_refl xs)

position_advances_trans :
    (a b c : EvmLogPosition)
    → position_advances a b ≡ true
    → position_advances b c ≡ true
    → position_advances a c ≡ true
unfolding position_advances
position_advances_trans a b c h k =
    ground (arith, equal_bytes_trans a.block_hash b.block_hash c.block_hash)

last_log_advances_trans :
    (a b c : Option EvmLogPosition)
    → last_log_advances a b ≡ true
    → last_log_advances b c ≡ true
    → last_log_advances a c ≡ true
unfolding last_log_advances
last_log_advances_trans a none none h k = k
last_log_advances_trans none none (some c) h k = refl
last_log_advances_trans (some a) none (some c) h k = cc
last_log_advances_trans a (some b) none h k = k
last_log_advances_trans none (some b) (some c) h k = refl
last_log_advances_trans (some a) (some b) (some c) h k = position_advances_trans a b c h k

-- The order in which a store accepts cursors is transitive.
cursor_advances_trans :
    (a b c : EvmIndexCursor)
    → cursor_advances a b ≡ true
    → cursor_advances b c ≡ true
    → cursor_advances a c ≡ true
unfolding cursor_advances
cursor_advances_trans a b c h k =
    ground (arith, last_log_advances_trans a.last_log b.last_log c.last_log)

-- The entry stays what it was or has moved forward.
abbrev Follows : Option EvmIndexCursor → Option EvmIndexCursor → Type 0
Follows none later = Unit
Follows (some c) none = ⊥
Follows (some c) (some d) = (c ≡ d) ⊎ (cursor_advances c d ≡ true)

Follows-refl : (entry : Option EvmIndexCursor) → Follows entry entry
Follows-refl none = tt
Follows-refl (some c) = inl refl

Follows-trans : (a b c : Option EvmIndexCursor) → Follows a b → Follows b c → Follows a c
Follows-trans none b c h k = tt
Follows-trans (some a) none c h k = elim h [ ]
Follows-trans (some a) (some b) none h k = elim k [ ]
Follows-trans (some a) (some b) (some c) (inl e) k = rw e k
Follows-trans (some a) (some b) (some c) (inr h) (inl e) = inr (rw (← e) h)
Follows-trans (some a) (some b) (some c) (inr h) (inr k) = inr (cursor_advances_trans a b c h k)

save-Follows : (entry : Option EvmIndexCursor) (n : ℕ) → Follows entry (save entry n)
unfolding save cursor_advances
save-Follows none n = tt
save-Follows (some c) n = elim (Bool-cases (ltb n c.block_number)) [
  | inl t ↦ rw t (inl refl)
  | inr t ↦ rw t (inr (ground arith))
]

save_cursor-Follows :
    (entry : Option EvmIndexCursor) (next : EvmIndexCursor) → Follows entry (save_cursor entry next)
unfolding save_cursor
save_cursor-Follows none next = tt
save_cursor-Follows (some c) next = elim (Bool-cases (cursor_advances c next)) [
  | inl t ↦ rw t (inr t)
  | inr t ↦ rw t (inl refl)
]

save_all-Follows_from :
    (entry : Option EvmIndexCursor) (calls : List Saving) → Follows entry (save_all entry calls)
unfolding save_all
save_all-Follows_from entry [] = Follows-refl entry
save_all-Follows_from entry (saves n ∷ calls) =
    Follows-trans entry (save entry n) _ (save-Follows entry n)
      (save_all-Follows_from (save entry n) calls)
save_all-Follows_from entry (saves_cursor c ∷ calls) =
    Follows-trans entry (save_cursor entry c) _ (save_cursor-Follows entry c)
      (save_all-Follows_from (save_cursor entry c) calls)

-- The positions of logs in the order of the chain: by transaction, then by log, within one block that
-- both name by its hash.
pub record IsAfter (p q : EvmLogPosition) : Type 0 where
  pub same_block : q.block_hash ≡ p.block_hash
  pub order :
      (p.transaction_index < q.transaction_index)
      ⊎ ((p.transaction_index ≡ q.transaction_index) × (p.log_index ≤ q.log_index))

-- What lies behind a cursor: the logs up to a position in its block, if any.
abbrev pub LastLogFollows : Option EvmLogPosition → Option EvmLogPosition → Type 0
LastLogFollows none none = ⊥
LastLogFollows none (some q) = Unit
LastLogFollows (some p) none = ⊥
LastLogFollows (some p) (some q) = IsAfter p q

-- A later block; or the same block, now complete; or a later log of the same block, which neither
-- cursor has completed.
abbrev pub IsForward : EvmIndexCursor → EvmIndexCursor → Type 0
IsForward c d =
    (c.block_number < d.block_number)
    ⊎ ((c.block_number ≡ d.block_number) × (d.block_complete ≡ true))
    ⊎ ((c.block_number ≡ d.block_number)
        × (c.block_complete ≡ false)
        × LastLogFollows c.last_log d.last_log)

position_advances-IsAfter : (p q : EvmLogPosition) → position_advances p q ≡ true → IsAfter p q
unfolding position_advances
position_advances-IsAfter p q h = record {
  same_block = equal_bytes_lem q.block_hash p.block_hash (ground arith);
  order = ground arith;
}

last_log_advances-follows :
    (p q : Option EvmLogPosition) → last_log_advances p q ≡ true → LastLogFollows p q
unfolding last_log_advances
last_log_advances-follows none none h = cc
last_log_advances-follows (some p) none h = cc
last_log_advances-follows none (some q) h = tt
last_log_advances-follows (some p) (some q) h = position_advances-IsAfter p q h

cursor_advances-IsForward : (c d : EvmIndexCursor) → cursor_advances c d ≡ true → IsForward c d
unfolding cursor_advances
cursor_advances-IsForward c d h = ground (arith, last_log_advances-follows c.last_log d.last_log)

-- What is stored is never lost, and stays what it was or moves forward.
abbrev pub MovesForward : Option EvmIndexCursor → Option EvmIndexCursor → Type 0
MovesForward none later = Unit
MovesForward (some c) none = ⊥
MovesForward (some c) (some d) = (c ≡ d) ⊎ IsForward c d

Follows-MovesForward : (a b : Option EvmIndexCursor) → Follows a b → MovesForward a b
Follows-MovesForward none b h = tt
Follows-MovesForward (some c) none h = elim h [ ]
Follows-MovesForward (some c) (some d) (inl e) = inl e
Follows-MovesForward (some c) (some d) (inr h) = inr (cursor_advances-IsForward c d h)

-- The block to resume after, where there is one.
abbrev pub NoEarlier : Option ℕ → Option ℕ → Type 0
NoEarlier none later = Unit
NoEarlier (some m) none = ⊥
NoEarlier (some m) (some n) = m ≤ n

load-Follows : (a b : Option EvmIndexCursor) → Follows a b → NoEarlier (load a) (load b)
unfolding load cursor_advances
load-Follows none b h = tt
load-Follows (some c) none h = elim h [ ]
load-Follows (some c) (some d) (inl e) = rw e (ground arith)
load-Follows (some c) (some d) (inr h) = ground arith

-- Whatever sequence of `save` and `save_cursor` runs on a stored entry, it is still stored, and is what
-- it was or has moved forward: to a later block, to the completion of the same block, or within a block
-- of the same hash to a log that is no earlier. The last complete block that `load` reports does not go
-- back.
pub save_all-MovesForward :
    (entry : Option EvmIndexCursor) (calls : List Saving)
    → MovesForward entry (save_all entry calls)
      × NoEarlier (load entry) (load (save_all entry calls))
save_all-MovesForward entry calls =
    let follows = save_all-Follows_from entry calls in
    (Follows-MovesForward entry _ follows, load-Follows entry _ follows)
