-- ===== src/ParseBuf.antt =====
-- commondb/parsebuf.c and .h: the string input of the parser, with a mark to go back to. The handle
-- `parser_input` only forwards to the pi_str_* functions, which are modelled directly.
use dudld.Common.{ℕ, ◌+◌, ◌-◌, Bool, Option, none, some, Bytes, length, get_or, ◌==◌, if◌then◌else◌}

-- `str` holds the bytes before the terminating 0; `cur` and `done` are offsets into it.
pub record PiStr : Type 0 where
  pub str : Bytes
  pub cur : ℕ
  pub done : ℕ

-- str[cur]; the byte behind the text is its terminating 0.
abbrev pub current : PiStr → ℕ
current d = get_or d.str d.cur 0

-- A `char` as the `int` that pi_str_next returns, where `char` is signed: byte 255 is -1, which is
-- EOF.
abbrev pub as_int : ℕ → Option ℕ
as_int b = if b == 255 then none else some b

unfoldable pub pi_str_eof : PiStr → Bool
pi_str_eof d = current d == 0

unfoldable pub pi_str_col : PiStr → ℕ
pi_str_col d = d.cur

unfoldable pub pi_str_next : PiStr → Option ℕ × PiStr
unfolding pi_str_eof
pi_str_next d =
    if pi_str_eof d then (none, d) else (as_int (current d), record d { cur = d.cur + 1 })

abbrev pub pi_str_done : PiStr → PiStr
pi_str_done d = record d { done = d.cur }

abbrev pub pi_str_undo : PiStr → PiStr
pi_str_undo d = record d { cur = d.done }

unfoldable pub pi_str_new : Bytes → PiStr
pi_str_new s = record { str = s; cur = 0; done = 0 }

-- How many bytes are still to be read.
abbrev pub remaining : PiStr → ℕ
remaining d = length d.str - d.cur
