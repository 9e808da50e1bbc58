-- ===== src/Client/Line.antt =====
-- client.c: client_read and client_getline, on the memory of `ibuf`. A call that reads or stores behind
-- the end of that memory has an outcome of its own.
use dudld.Common.{
  ℕ, suc, ◌+◌, ◌-◌, Bool, true, false, ◌||◌, Option, none, some, Bytes, [], ◌∷◌, ◌++◌, ◌==◌, ltb,
  leb, if◌then◌else◌, length, take, drop,
}

abbrev pub client_buflen : ℕ
client_buflen = 10240

-- What client.c's reading uses of a t_client: the CLIENT_BUFLEN + 1 bytes of its input buffer, how
-- many of them hold input, and whether it is being freed.
pub record Buffer : Type 0 where
  pub ibuf : Bytes
  pub ilen : ℕ
  pub del : Bool

unfoldable pub is_break : ℕ → Bool
is_break c = c == b'\n' || c == b'\r'

-- while( *s && ( *s == '\n' || *s == '\r')) s++; the bytes passed, from `s` on.
unfoldable pub skip_breaks : Bytes → ℕ
skip_breaks [] = 0
skip_breaks (c ∷ s) = let more = skip_breaks s in if is_break c then suc more else 0

-- strpbrk( s, "\n\r" ): how far behind `s` the first linebreak of the C string is.
unfoldable pub find_break : Bytes → Option ℕ
find_break [] = none
find_break (c ∷ s) =
    let more = find_break s in
    if c == 0
    then none
    else if is_break c
    then some 0
    else elim more [ none ↦ none | some n ↦ some (suc n) ]

-- The C string at the front of a memory, as strdup copies it.
unfoldable pub c_string : Bytes → Bytes
c_string [] = []
c_string (c ∷ s) = let more = c_string s in if c == 0 then [] else c ∷ more

-- do { *n++ = 0; } while( *n && ( *n == '\n' || *n == '\r')), from `n` on: the memory behind it.
unfoldable pub clear_breaks : Bytes → Bytes
clear_breaks [] = []
clear_breaks (c ∷ []) = 0 ∷ []
clear_breaks (c ∷ d ∷ s) =
    let more = clear_breaks (d ∷ s) in if is_break d then 0 ∷ more else 0 ∷ d ∷ s

-- How many bytes that loop clears.
unfoldable pub count_breaks : Bytes → ℕ
count_breaks [] = 1
count_breaks (c ∷ s) = suc (skip_breaks s)

-- What a call of client_getline does: it returns a line, or NULL, after closing the connection where
-- the buffer is full; or it calls memmove with a length below 0, or reads past the end of the buffer.
pub data GetLine : Type 0 where
  line : Bytes → Buffer → GetLine
  no_line too_long : Buffer → GetLine
  fault past : GetLine

-- Whether a 0 ends the C string at the front of a memory.
unfoldable pub is_ended : Bytes → Bool
is_ended [] = false
is_ended (c ∷ s) = let more = is_ended s in if c == 0 then true else more

-- memmove( ibuf, ibuf + n, k ).
unfoldable pub move_down : ℕ → ℕ → Bytes → Bytes
move_down n k mem = take k (drop n mem) ++ drop k mem

-- The part of client_getline behind the search, which found a linebreak at `s` + `d`.
unfoldable pub take_line : ℕ → ℕ → Buffer → GetLine
take_line s d b =
    let mem = take (s + d) b.ibuf ++ clear_breaks (drop (s + d) b.ibuf) in
    let n = s + d + count_breaks (drop (s + d) b.ibuf) in
    if leb (length b.ibuf) n
    then past
    else if ltb b.ilen n
    then fault
    else line (c_string (drop s mem))
        (record { ibuf = move_down n (b.ilen - n) mem; ilen = b.ilen - n; del = b.del })

-- The part of client_getline behind the skipped linebreaks: the line starts at `s`.
unfoldable pub search_line : ℕ → Buffer → GetLine
search_line s b = elim (find_break (drop s b.ibuf)) [
  | none ↦
      if is_ended (drop s b.ibuf)
      then (if leb client_buflen b.ilen then too_long b else no_line b)
      else past
  | some d ↦ take_line s d b
]

unfoldable pub client_getline : Buffer → GetLine
client_getline b = if b.del then no_line b else search_line (skip_breaks b.ibuf) b

-- What recv returned is put behind the input, and a 0 behind that.
unfoldable pub receive : Bytes → Buffer → Buffer
receive got b = record {
  ibuf = take b.ilen b.ibuf ++ (got ++ 0 ∷ drop (b.ilen + length got + 1) b.ibuf);
  ilen = b.ilen + length got;
  del = b.del;
}

-- What client_read does: it closes the connection, or calls `ifunc` with the input, or stores behind the
-- end of the buffer.
pub data Read : Type 0 where
  closed beyond : Read
  input : Buffer → Read

-- What client_read does with what recv returned, none for an error.
unfoldable pub received : Option Bytes → Buffer → Read
received none b = closed
received (some []) b = closed
received (some (c ∷ got)) b =
    if leb (length b.ibuf) (b.ilen + length (c ∷ got)) then beyond else input (receive (c ∷ got) b)

-- client_read, for a condition with or without G_IO_IN and what recv answers to a size.
unfoldable pub client_read : Bool → (ℕ → Option Bytes) → Buffer → Read
client_read cond recv b = if cond then received (recv (client_buflen - b.ilen)) b else closed
