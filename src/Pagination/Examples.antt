-- ===== src/Pagination/Examples.antt =====
-- A server that answers with a cursor that it has given before.
use polymarket_cpp_client.Prelude.{
  ◌≡◌, ◌≤◌, refl, ◌∷◌, [], List, Bytes, codes, length, true, Distinct, contains, equal_bytes,
  is_empty,
}
use polymarket_cpp_client.Pagination.{
  max_pages, create, requested, next_cursor_page, begin_page, advance, exhausted, at_end,
}
use polymarket_cpp_client.Pagination.Progress.{requested-Distinct}

abbrev answers : List Bytes
answers = codes "a" ∷ codes "b" ∷ codes "a" ∷ codes "c" ∷ []

cycle : requested (create [] [] true) answers ≡ [] ∷ codes "a" ∷ codes "b" ∷ []
unfolding requested create next_cursor_page begin_page advance exhausted at_end contains equal_bytes
    is_empty
cycle = refl

requested-Distinct_example :
    Distinct (requested (create [] (codes "LTE=") true) answers)
    × (length (requested (create [] (codes "LTE=") true) answers) ≤ max_pages)
requested-Distinct_example = requested-Distinct [] (codes "LTE=") true answers
