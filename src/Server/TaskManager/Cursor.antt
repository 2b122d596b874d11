-- ===== src/Server/TaskManager/Cursor.antt =====
-- `parse_task_list_cursor`: the decimal offsets of `tasks/list`, in a 64-bit `size_t`.
use cxxmcp.Prelude.{
  ◌∙◌, ℕ, ◌+◌, ◌-◌, ◌*◌, ◌/◌, ◌%◌, ◌^◌, ◌≤◌, ◌<◌, ◌≡◌, refl, ◌||◌, Bytes, text, [], ◌∷◌, Option,
  none, some, Result, ok, err, ErrorCode, ltb, if◌then◌else◌, arith,
}
use cxxmcp.Prelude.Decimal.{to_string, read-to_string}
use cxxmcp.Server.TaskManager.State.{make_task_error}

abbrev pub max_size : ℕ
max_size = 18446744073709551615

cursor_loop : Bytes → Bytes → ℕ → Result ℕ
cursor_loop cursor [] value = ok value
cursor_loop cursor (character ∷ rest) value =
    if ltb character b'0' || ltb b'9' character
    then err (
        make_task_error ErrorCode.invalid_params (text "tasks/list cursor must be a decimal offset")
          cursor)
    else if ltb ((max_size - (character - b'0')) / 10) value
    then err (
        make_task_error ErrorCode.invalid_params (text "tasks/list cursor offset is too large")
          cursor)
    else cursor_loop cursor rest ((value * 10 + (character - b'0')) % 2 ^ 64)

unfoldable pub parse_task_list_cursor : Option Bytes → Result ℕ
unfolding cursor_loop
parse_task_list_cursor none = ok 0
parse_task_list_cursor (some []) = ok 0
parse_task_list_cursor (some (c ∷ s)) = cursor_loop (c ∷ s) (c ∷ s) 0

cursor_loop_digit :
    (cursor s : Bytes) (m d : ℕ)
    → d < 10
    → m * 10 + d ≤ max_size
    → cursor_loop cursor ((b'0' + d) ∷ s) m ≡ cursor_loop cursor s (m * 10 + d)
unfolding cursor_loop
cursor_loop_digit cursor s m d small fits = ground arith

parse_is_loop : (s : Bytes) → parse_task_list_cursor (some s) ≡ cursor_loop s s 0
unfolding parse_task_list_cursor cursor_loop
parse_is_loop [] = refl
parse_is_loop (c ∷ s) = refl

-- Every offset that `tasks/list` prints as a cursor is read back.
pub parse-to_string : (n : ℕ) → n ≤ max_size → parse_task_list_cursor (some (to_string n)) ≡ ok n
parse-to_string n fits =
    parse_is_loop (to_string n)
    ∙ read-to_string (cursor_loop (to_string n)) max_size (cursor_loop_digit (to_string n)) n fits
    ∙ unfold cursor_loop in refl
