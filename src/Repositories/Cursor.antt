-- ===== src/Repositories/Cursor.antt =====
-- Pages by cursor: app/repositories/cursor.py, and cursor_slice of app/schemas/pagination.py. A row
-- has a moment and an id, and the newest comes first.
pub mod Order
pub mod Pages
use fastapi_template.Prelude.{
  ℕ, ◌+◌, String, ◌≡◌, Bool, true, ◌&&◌, ◌||◌, Option, none, some, List, [], ◌∷◌, ltb, leb, ◌==◌,
  if◌then◌else◌, length, take, select,
}
use fastapi_template.Errors.{value_error, Result, ok, err}

-- encode_cursor and decode_cursor over Python's base64 and isoformat: a cursor decodes to what it
-- encodes.
pub record CursorCodec : Type 0 where
  pub encode : ℕ × ℕ → String
  pub decode : String → Option (ℕ × ℕ)
  pub decode-encode : (k : ℕ × ℕ) → decode (encode k) ≡ some k

-- The row comparison (moment, id) < (moment, id).
abbrev pub is_before : ℕ × ℕ → ℕ × ℕ → Bool
is_before (m, i) (n, j) = ltb m n || (m == n && ltb i j)

-- The condition of a cursor: none, or the rows that come after it.
abbrev pub after_key : Option (ℕ × ℕ) → ℕ × ℕ → Bool
after_key none k = true
after_key (some c) k = is_before k c

-- `cursor_condition`; decode_cursor raises ValueError.
unfoldable pub cursor_condition : CursorCodec → Option String → Result (Option (ℕ × ℕ))
cursor_condition codec none = ok none
cursor_condition codec (some cursor) = elim (codec.decode cursor) [
  | none ↦ err value_error
  | some k ↦ ok (some k)
]

module _ {R : Type 0} (key : R → ℕ × ℕ) where
  -- ORDER BY moment DESC, id DESC
  abbrev pub insert_newest : R → List R → List R
  insert_newest r [] = r ∷ []
  insert_newest r (x ∷ xs) =
      let rest = insert_newest r xs in if is_before (key x) (key r) then r ∷ x ∷ xs else x ∷ rest

  abbrev pub newest_first : List R → List R
  newest_first [] = []
  newest_first (r ∷ rs) = insert_newest r (newest_first rs)

  -- The rows of a query with a cursor, in order.
  abbrev pub matching : (R → Bool) → Option (ℕ × ℕ) → List R → List R
  matching p c rows = newest_first (select (λ r. p r && after_key c (key r)) rows)

  -- `list_page`: one row more than asked for.
  abbrev pub page_of : (R → Bool) → Option (ℕ × ℕ) → ℕ → List R → List R
  page_of p c limit rows = take (limit + 1) (matching p c rows)

  abbrev pub last_of : List R → Option R
  last_of [] = none
  last_of (r ∷ []) = some r
  last_of (r ∷ s ∷ rs) = last_of (s ∷ rs)

  abbrev pub next_cursor : CursorCodec → Option R → Option String
  next_cursor codec none = none
  next_cursor codec (some r) = some (codec.encode (key r))

  -- `cursor_slice`
  unfoldable pub cursor_slice : CursorCodec → List R → ℕ → List R × Option String
  cursor_slice codec found limit = (
    take limit found,
    if leb (length found) limit then none else next_cursor codec (last_of (take limit found)),
  )
