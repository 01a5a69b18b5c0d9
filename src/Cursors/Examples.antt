-- ===== src/Cursors/Examples.antt =====
-- A cursor inside a block, and saves around it.
use polymarket_cpp_client.Prelude.{◌≡◌, refl, ◌∷◌, [], List, some, false, true, codes, equal_bytes}
use polymarket_cpp_client.Cursors.{
  EvmIndexCursor, Saving, saves, saves_cursor, save_all, save, save_cursor, load, whole_block,
  cursor_advances, last_log_advances, position_advances,
}
use polymarket_cpp_client.Cursors.Order.{MovesForward, NoEarlier, save_all-MovesForward}

abbrev inside : EvmIndexCursor
inside = record {
  block_number = 12;
  block_complete = false;
  last_log = some (record { transaction_index = 3; log_index = 7; block_hash = codes "0xab" });
}

-- The save of block 11 comes too late and is ignored.
abbrev calls : List Saving
calls = saves_cursor inside ∷ saves 11 ∷ saves 12 ∷ []

saved : save_all (some (whole_block 10)) calls ≡ some (whole_block 12)
unfolding save_all save save_cursor cursor_advances
saved = refl

-- A later log of the same block is stored, an earlier one is not.
abbrev later : EvmIndexCursor
later = record inside {
  last_log = some (record { transaction_index = 4; log_index = 1; block_hash = codes "0xab" });
}

abbrev within : List Saving
within = saves_cursor later ∷ saves_cursor inside ∷ []

stays_later : save_all (some inside) within ≡ some later
unfolding save_all save_cursor cursor_advances last_log_advances position_advances equal_bytes
stays_later = refl

into : cursor_advances (whole_block 10) inside ≡ true
unfolding cursor_advances
into = refl

out_of : cursor_advances inside (whole_block 12) ≡ true
unfolding cursor_advances
out_of = refl

save_all-MovesForward_example :
    MovesForward (some inside) (save_all (some inside) within)
    × NoEarlier (load (some inside)) (load (save_all (some inside) within))
save_all-MovesForward_example = save_all-MovesForward (some inside) within
