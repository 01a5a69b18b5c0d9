-- ===== src/Pagination/Progress.antt =====
-- A client that pages by an opaque cursor never asks twice and never asks forever.
use polymarket_cpp_client.Prelude.{
  suc, ◌+◌, ◌≤◌, ◌≡◌, refl, arith, Bool, true, false, if◌then◌else◌, List, [], ◌∷◌, length, All,
  Option, none, some, Bytes, equal_bytes, equal_bytes_symm, contains, Distinct, is_empty,
}
use polymarket_cpp_client.Pagination.{
  Pages, max_pages, at_end, exhausted, begin_page, advance, next_cursor_page, requested, create,
}

-- A cursor that later pages may still request.
abbrev Open : List Bytes → Bytes → Type 0
Open seen c = (contains c seen ≡ false) × (is_empty c ≡ false)

Open-tail : (c s : Bytes) (seen : List Bytes) → Open (s ∷ seen) c → Open seen c
unfolding contains
Open-tail c s seen h = ground arith

All-Open-tail :
    (s : Bytes) (seen : List Bytes) (xs : List Bytes)
    → All (Open (s ∷ seen)) xs
    → All (Open seen) xs × (contains s xs ≡ false)
unfolding contains
All-Open-tail s seen [] h = (tt, refl)
All-Open-tail s seen (x ∷ xs) (h, hs) =
    let (now, later) = All-Open-tail s seen xs hs in
    ((Open-tail x s seen h, now), ground (arith, equal_bytes_symm s x))

All-Open-nonempty : (seen xs : List Bytes) → All (Open seen) xs → contains [] xs ≡ false
unfolding contains equal_bytes is_empty
All-Open-nonempty seen [] h = refl
All-Open-nonempty seen ([] ∷ xs) (h, hs) = cc
All-Open-nonempty seen ((c ∷ cs) ∷ xs) (h, hs) = All-Open-nonempty seen xs hs

-- What a page does, once no page without a cursor is left.
abbrev PageStep : Pages → Pages × Option Bytes × Bool → Type 0
PageStep p (q, none, more) = Unit
PageStep p (q, some c, more) =
    (Open p.seen_cursors c)
    × (suc p.pages_started ≤ max_pages)
    × (q.first_page_without_cursor ≡ false)
    × (q.seen_cursors ≡ c ∷ p.seen_cursors)
    × (q.pages_started ≡ suc p.pages_started)

next_cursor_page-PageStep :
    (p : Pages) (answer : Bytes)
    → p.first_page_without_cursor ≡ false
    → PageStep p (next_cursor_page p answer)
unfolding next_cursor_page begin_page advance exhausted at_end
next_cursor_page-PageStep p answer no_flag = ground arith

-- What holds of the cursors `xs` that are requested from the state `p` on.
abbrev Orderly : Pages → List Bytes → Type 0
Orderly p xs =
    All (Open p.seen_cursors) xs × Distinct xs × (p.pages_started + length xs ≤ max_pages)

extend-Orderly :
    (p q : Pages) (cursor : Option Bytes) (more : Bool) (rest : List Bytes)
    → p.pages_started ≤ max_pages
    → PageStep p (q, cursor, more)
    → (q.first_page_without_cursor ≡ false → q.pages_started ≤ max_pages → Orderly q rest)
    → Orderly p (elim cursor [ none ↦ [] | some c ↦ c ∷ (if more then rest else []) ])
unfolding Distinct contains
extend-Orderly p q none more rest few step later = (tt, tt, ground arith)
extend-Orderly p q (some c) false rest few (new_one, one_more, flag, seen, pages) later =
    ((new_one, tt), (refl, tt), ground arith)
extend-Orderly p q (some c) true rest few (new_one, one_more, flag, seen, pages) later =
    let (all, distinct, bound) = later flag (ground arith) in
    let (opens, new) = All-Open-tail c p.seen_cursors rest (rw (← seen) all) in
    ((new_one, opens), (new, distinct), ground arith)

requested-Orderly :
    (p : Pages) (answers : List Bytes)
    → p.first_page_without_cursor ≡ false
    → p.pages_started ≤ max_pages
    → Orderly p (requested p answers)
unfolding requested Distinct
requested-Orderly p [] no_flag few = (tt, tt, ground arith)
requested-Orderly p (answer ∷ answers) no_flag few =
    let (q, cursor, more) = next_cursor_page p answer in
    extend-Orderly p q cursor more (requested q answers) few
      (next_cursor_page-PageStep p answer no_flag) (requested-Orderly q answers)

-- The first page of a client that starts without a cursor.
abbrev FirstPage : Pages × Option Bytes × Bool → Type 0
FirstPage (q, cursor, more) =
    (cursor ≡ some []) × (q.first_page_without_cursor ≡ false) × (q.pages_started ≡ 1)

first-FirstPage :
    (end_cursor answer : Bytes) → FirstPage (next_cursor_page (create [] end_cursor true) answer)
unfolding next_cursor_page begin_page advance exhausted at_end create is_empty
first-FirstPage end_cursor answer = ground arith

extend-first :
    (q : Pages) (cursor : Option Bytes) (more : Bool) (rest : List Bytes)
    → cursor ≡ some []
    → q.pages_started ≡ 1
    → All (Open q.seen_cursors) rest
    → Distinct rest
    → q.pages_started + length rest ≤ max_pages
    → Distinct (elim cursor [ none ↦ [] | some c ↦ c ∷ (if more then rest else []) ])
      × (length (elim cursor [ none ↦ [] | some c ↦ c ∷ (if more then rest else []) ]) ≤ max_pages)
unfolding Distinct contains
extend-first q cursor false rest same one opens distinct bound = rw same ((refl, tt), ground arith)
extend-first q cursor true rest same one opens distinct bound =
    rw same ((All-Open-nonempty q.seen_cursors rest opens, distinct), ground arith)

requested-first :
    (end_cursor : Bytes) (answers : List Bytes)
    → Distinct (requested (create [] end_cursor true) answers)
      × (length (requested (create [] end_cursor true) answers) ≤ max_pages)
unfolding requested Distinct
requested-first end_cursor [] = (tt, ground arith)
requested-first end_cursor (answer ∷ answers) =
    let (q, cursor, more) = next_cursor_page (create [] end_cursor true) answer in
    let (same, flag, one) = first-FirstPage end_cursor answer in
    let (opens, distinct, bound) = requested-Orderly q answers flag (ground arith) in
    extend-first q cursor more (requested q answers) same one opens distinct bound

-- Whatever cursors a server answers with, the client requests no cursor twice, the page without a
-- cursor included, and requests at most 1000 pages.
pub requested-Distinct :
    (initial_cursor end_cursor : Bytes) (first_page_without_cursor : Bool) (answers : List Bytes)
    → Distinct (requested (create initial_cursor end_cursor first_page_without_cursor) answers)
      × (length (requested (create initial_cursor end_cursor first_page_without_cursor) answers)
          ≤ max_pages)
unfolding create is_empty
requested-Distinct [] end_cursor true answers = requested-first end_cursor answers
requested-Distinct i end_cursor false answers =
    let (opens, distinct, bound) =
      requested-Orderly (create i end_cursor false) answers refl (ground arith) in
    (distinct, ground arith)
requested-Distinct (c ∷ cs) end_cursor true answers =
    let (opens, distinct, bound) =
      requested-Orderly (create (c ∷ cs) end_cursor true) answers refl (ground arith) in
    (distinct, ground arith)
