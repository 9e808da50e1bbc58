-- ===== src/Client/Tests.antt =====
-- The theorems on client.c at concrete buffers, and a packet that client_getline does not survive.
use dudld.Common.{Bool, true, false, Bytes, [], ◌∷◌, ◌++◌, ◌≡◌, ◌≢◌, refl, arith, replicate, codes}
use dudld.Client.Line.{
  Buffer, GetLine, line, no_line, fault, receive, client_getline, search_line, take_line, move_down,
  skip_breaks, find_break, c_string, clear_breaks, count_breaks, is_break, is_ended,
}
use dudld.Client.FirstLine.{filled, Breaks, IsLine, StartsPlain, client_getline-filled}

-- client_getline, with its parts in sight.
read_line : Buffer → GetLine
unfolding client_getline search_line take_line move_down skip_breaks find_break c_string
    clear_breaks count_breaks is_break is_ended
read_line b = client_getline b

next_line : GetLine → GetLine
unfolding read_line
next_line (line s b) = read_line b
next_line r = r

abbrev empty : Buffer
empty = record { ibuf = replicate 20 0; ilen = 0; del = false }

-- Two lines and the start of a third in one packet: the second call moves what is left, but not the 0
-- behind it, so the third finds a linebreak in the stale bytes and counts more than it has.
stale_bytes : next_line (next_line (read_line (receive (codes "aaa\nb\ncd") empty))) ≡ fault
unfolding read_line next_line receive
stale_bytes = refl

-- The same two lines in two packets.
is_nothing : GetLine → Bool
unfolding client_getline
is_nothing (no_line b) = true
is_nothing r = false

first_call : is_nothing (next_line (read_line (receive (codes "aaa\nb") empty))) ≡ true
unfolding is_nothing read_line next_line receive
first_call = refl

abbrev pub text : Bytes
text = 97 ∷ 98 ∷ []

text-IsLine : IsLine text
unfolding is_break
text-IsLine = ((omega arith, refl), ((omega arith, refl), tt))

breaks : Breaks (10 ∷ 13 ∷ [])
unfolding is_break
breaks = (refl, (refl, tt))

break_newline : is_break 10 ≡ true
unfolding is_break
break_newline = refl

text_plain : StartsPlain text
unfolding is_break
text_plain = refl

text_nonempty : text ≢ []
text_nonempty e = cc

client_getline-filled_example :
    client_getline (filled (10 ∷ 13 ∷ []) text 10 (10 ∷ 13 ∷ []) text (1 ∷ []))
    ≡ line text (record {
      ibuf = text ++ 97 ∷ 98 ∷ 0 ∷ 0 ∷ 0 ∷ 97 ∷ 98 ∷ 0 ∷ 1 ∷ [];
      ilen = 2;
      del = false;
    })
client_getline-filled_example =
    client_getline-filled (10 ∷ 13 ∷ []) text 10 (10 ∷ 13 ∷ []) text (1 ∷ []) breaks text-IsLine
      text_nonempty break_newline breaks text_plain
