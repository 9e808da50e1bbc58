-- ===== src/ParseExpr/Lexer.antt =====
-- commondb/parseexpr.c, "low-level token reader". `malloc` and `realloc` are taken to succeed.
-- Every loop runs on the number of bytes that are left to read: with none left, its next read is EOF
-- and ends it.
pub mod Steps
pub mod Tokens
pub mod Numbers
pub mod Block
use dudld.Common.{
  ℕ, zero, suc, ◌+◌, ◌-◌, ◌*◌, ◌%◌, ◌^◌, true, false, not, Option, none, some, Bytes, [], ◌∷◌, ◌++◌,
  leb, ◌==◌, if◌then◌else◌, ◌||◌,
}
use dudld.Common.Char.{isspace, isdigit, isalnum, tolower, holds, is_char}
use dudld.ParseBuf.{PiStr, pi_str_next, pi_str_done, pi_str_undo, remaining}
use dudld.ParseExpr.Syntax.{Message, eof_escaped, missing_termination}

pub record ParseStat : Type 0 where
  pub input : PiStr
  pub msg : Option Message

abbrev keep_first : Option Message → Message → Option Message
keep_first none m = some m
keep_first (some old) m = some old

-- The first message is kept.
unfoldable pub parse_error : Message → ParseStat → ParseStat
parse_error m i = record i { msg = keep_first i.msg m }

-- PI_NEXT, PI_DONE and PI_UNDO on the input of the parser.
unfoldable pub next : ParseStat → Option ℕ × ParseStat
unfolding pi_str_next
next i = ((pi_str_next i.input).0, record i { input = (pi_str_next i.input).1 })

abbrev pub done : ParseStat → ParseStat
done i = record i { input = pi_str_done i.input }

abbrev pub undo : ParseStat → ParseStat
undo i = record i { input = pi_str_undo i.input }

abbrev pub left : ParseStat → ℕ
left i = remaining i.input

unfoldable pub nonspace_from : ℕ → ParseStat → Option ℕ × ParseStat
nonspace_from zero i = next (done i)
nonspace_from (suc n) i =
    let (c, j) = next (done i) in
    let again = nonspace_from n j in if holds isspace c then again else (c, j)

unfoldable pub parse_nonspace : ParseStat → Option ℕ × ParseStat
parse_nonspace i = nonspace_from (left i) i

module _ (filter : ParseStat → Option ℕ × ParseStat) where
  unfoldable pub alloc_from : ℕ → Bytes → ParseStat → Bytes × ParseStat
  alloc_from zero str i = (str, (filter i).1)
  alloc_from (suc n) str i =
      let (c, j) = filter i in
      elim c [ none ↦ (str, j) | some b ↦ alloc_from n (str ++ tolower b ∷ []) j ]

  unfoldable pub parse_alloc : ParseStat → Bytes × ParseStat
  parse_alloc i = alloc_from (left i) [] i

-- The block that `_parse_alloc` holds after `used` characters: its size in bytes and `avail`. It
-- grows before a character is stored, and the terminating 0 is stored at index `used`.
unfoldable pub alloc_block : ℕ → ℕ × ℕ
alloc_block zero = (5, 5)
alloc_block (suc used) =
    let (size, avail) = alloc_block used in
    if leb avail used then (avail + 100 + 1, avail + 100) else (size, avail)

unfoldable pub filter_name : ParseStat → Option ℕ × ParseStat
filter_name i =
    let (c, j) = next i in
    elim c [
      | none ↦ (none, done j)
      | some b ↦ if isalnum b then (some b, done j) else (none, undo j)
    ]

unfoldable pub parse_name : ParseStat → Bytes × ParseStat
parse_name i = parse_alloc filter_name (undo (parse_nonspace i).1)

-- `num *= 10; num += c - '0'` on a 32-bit int; the overflow, undefined in C, wraps around.
abbrev pub add_digit : ℕ → ℕ → ℕ
add_digit n c = (n * 10 + (c - b'0')) % 2 ^ 32

unfoldable pub num_from : ℕ → ℕ → ParseStat → ℕ × ParseStat
num_from zero n i = (n, undo (parse_nonspace i).1)
num_from (suc k) n i =
    let (c, j) = parse_nonspace i in
    elim c [
      | none ↦ (n, undo j)
      | some b ↦ elim (isdigit b) [
        | true ↦ num_from k (add_digit n b) (done j)
        | false ↦ (n, undo j)
      ]
    ]

unfoldable pub parse_num : ParseStat → ℕ × ParseStat
parse_num i = num_from (left i) 0 i

-- Behind a backslash.
unfoldable pub escaped : ParseStat → Option ℕ × ParseStat
escaped i =
    let (e, j) = next i in
    elim e [
      | none ↦ (some b'\\', done (parse_error eof_escaped j))
      | some b ↦ if b == b'\\' || b == b'"' then (some b, done j) else (some b'\\', undo j)
    ]

unfoldable pub filter_string : ParseStat → Option ℕ × ParseStat
filter_string i =
    let (c, j) = next i in
    if is_char b'\\' c
    then escaped (done j)
    else if is_char b'"' c
    then (none, undo j)
    else (c, done j)

-- `none` is NULL.
unfoldable pub parse_string : ParseStat → Option Bytes × ParseStat
parse_string i =
    let (c, j) = parse_nonspace i in
    elim c [
      | none ↦ (none, done j)
      | some b ↦
          if not (b == b'"')
          then (none, undo j)
          else let (str, k) = parse_alloc filter_string (done j) in
            let (q, l) = next k in
            if is_char b'"' q then (some str, l) else (none, parse_error missing_termination l)
    ]
