-- ===== src/Pagination.antt =====
-- Paging by an opaque cursor: `OpaqueCursorPagination` of include/polymarket/pagination.hpp.
pub mod Progress
mod Examples
use polymarket_cpp_client.Prelude.{
  ℕ, suc, ◌+◌, leb, Bool, true, false, not, ◌&&◌, ◌||◌, if◌then◌else◌, List, [], ◌∷◌, Option, none,
  some, Bytes, equal_bytes, contains, is_empty,
}
use polymarket_cpp_client.Prelude.Except.{Except, ok, throw, runtime_error}

abbrev pub max_pages : ℕ
max_pages = 1000

-- The set of cursors is a list without repetitions.
pub record Pages : Type 0 where
  pub cursor : Bytes
  pub end_cursor : Bytes
  pub first_page_without_cursor : Bool
  pub pages_started : ℕ
  pub seen_cursors : List Bytes

unfoldable pub create : Bytes → Bytes → Bool → Pages
create initial_cursor end_cursor first_page_without_cursor = record {
  cursor = initial_cursor;
  end_cursor = end_cursor;
  first_page_without_cursor = first_page_without_cursor && is_empty initial_cursor;
  pages_started = 0;
  seen_cursors = [];
}

-- `cursor_.empty() || cursor_ == end_cursor_`
unfoldable pub at_end : Pages → Bool
at_end p = is_empty p.cursor || equal_bytes p.cursor p.end_cursor

unfoldable pub exhausted : Pages → Bool
exhausted p = not p.first_page_without_cursor && at_end p

-- What a call leaves behind, and what it returned or threw. The flag of the first page is reset
-- whatever happens next.
unfoldable pub begin_page : Pages → Pages × Except Bool
begin_page p =
    let q : Pages = record p { first_page_without_cursor = false } in
    if exhausted p
    then (q, ok false)
    else if leb max_pages p.pages_started
    then (q, throw (runtime_error "opaque cursor pagination exceeded 1000 pages"))
    else if p.first_page_without_cursor
    then (record q { pages_started = p.pages_started + 1 }, ok true)
    else if contains p.cursor p.seen_cursors
    then (q, throw (runtime_error "opaque cursor pagination cycle detected"))
    else (
      record q { pages_started = p.pages_started + 1; seen_cursors = p.cursor ∷ p.seen_cursors },
      ok true,
    )

unfoldable pub advance : Pages → Bytes → Pages × Except (Unit {0})
advance p next_cursor =
    if is_empty next_cursor || equal_bytes next_cursor p.end_cursor
    then (record p { cursor = p.end_cursor }, ok tt)
    else if contains next_cursor p.seen_cursors
    then (p, throw (runtime_error "opaque cursor pagination cycle detected"))
    else (record p { cursor = next_cursor }, ok tt)

-- `next_cursor_page` with a fetch that answers `next_cursor`: the cursor it requested, where it
-- requested one, and whether `advance` accepted the answer.
unfoldable pub next_cursor_page : Pages → Bytes → Pages × Option Bytes × Bool
next_cursor_page p next_cursor =
    let (q, started) = begin_page p in
    let (r, moved) = advance q next_cursor in
    elim started [
      | ok true ↦ (r, some q.cursor, elim moved [ ok _ ↦ true | throw _ ↦ false ])
      | ok false ↦ (q, none, false)
      | throw e ↦ (q, none, false)
    ]

-- The cursors that are requested while a server gives these answers, up to the end or the first
-- error.
unfoldable pub requested : Pages → List Bytes → List Bytes
requested p [] = []
requested p (answer ∷ answers) =
    let (q, cursor, more) = next_cursor_page p answer in
    let rest = requested q answers in
    elim cursor [ none ↦ [] | some c ↦ c ∷ (if more then rest else []) ]
