-- ===== src/Client/Bounds.antt =====
-- The input buffer of client.c keeps its size, the input stays inside it, and client_getline takes whole
-- lines from its front.
use dudld.Common.{
  ℕ, ◌+◌, ◌-◌, ◌≤◌, ◌≡◌, refl, sym, ap, ◌∙◌, arith, Bool, true, false, Option, none, some, List,
  Bytes, [], ◌∷◌, ◌++◌, length, take, drop, length-append, length-take, length-drop, append_assoc,
  take-length, drop-length, leb,
}
use dudld.Client.Line.{
  client_buflen, Buffer, receive, Read, closed, beyond, input, received, client_read,
}

-- Where a list of two parts is cut between them.
pub take_front : {A : Type 0} → (n : ℕ) (xs ys : List A) → n ≡ length xs → take n (xs ++ ys) ≡ xs
take_front n xs ys e = rw e (take-length xs ys)

drop_front : {A : Type 0} → (n : ℕ) (xs ys : List A) → n ≡ length xs → drop n (xs ++ ys) ≡ ys
drop_front n xs ys e = rw e (drop-length xs ys)

-- The input: the bytes that the buffer counts.
abbrev pub held : Buffer → Bytes
held b = take b.ilen b.ibuf

-- The buffer has its CLIENT_BUFLEN + 1 bytes, and a 0 in or behind the input, inside it.
pub record IsBuffer (b : Buffer) : Type 0 where
  pub size : length b.ibuf ≡ client_buflen + 1
  pub front : Bytes
  pub rest : Bytes
  pub ended : b.ibuf ≡ front ++ 0 ∷ rest
  pub room : b.ilen ≤ length front

room_of : (b : Buffer) → IsBuffer b → b.ilen ≤ client_buflen
room_of b h = omega (arith, h.room, h.size, ap length h.ended, length-append h.front (0 ∷ h.rest))

-- What client_read leaves: the input and what was received, ended by a 0.
abbrev pub IsRead : Option Bytes → Buffer → Read → Type 0
IsRead answer b closed = Unit
IsRead answer b beyond = ⊥
IsRead answer b (input after) =
    IsBuffer after
    × ((got : Bytes) × (rest : Bytes) × (answer ≡ some got)
        × (held after ≡ held b ++ got)
        × (drop after.ilen after.ibuf ≡ 0 ∷ rest))

receive-IsBuffer :
    (got : Bytes) (b : Buffer)
    → IsBuffer b
    → length got ≤ client_buflen - b.ilen
    → IsRead (some got) b (input (receive got b))
unfolding receive
receive-IsBuffer got b h le =
    let after : Bytes = drop (b.ilen + length got + 1) b.ibuf in
    let n : length (held b) ≡ b.ilen =
      omega (arith, h.size, room_of b h, length-take b.ilen b.ibuf) in
    let ends : b.ilen + length got ≡ length (held b ++ got) =
      omega (arith, n, length-append (held b) got) in
    let whole : held b ++ (got ++ 0 ∷ after) ≡ (held b ++ got) ++ 0 ∷ after =
      sym (append_assoc (held b) got (0 ∷ after)) in
    (
      record {
        size = omega (
          arith,
          h.size,
          room_of b h,
          le,
          n,
          length-append (held b) (got ++ 0 ∷ after),
          length-append got (0 ∷ after),
          length-drop (b.ilen + length got + 1) b.ibuf,
        );
        front = held b ++ got;
        rest = after;
        ended = whole;
        room = omega (arith, ends);
      },
      (
        got,
        after,
        refl,
        ap (take (b.ilen + length got)) whole ∙ take_front _ (held b ++ got) (0 ∷ after) ends,
        ap (drop (b.ilen + length got)) whole ∙ drop_front _ (held b ++ got) (0 ∷ after) ends,
      ),
    )

received-IsRead :
    (got : Option Bytes) (b : Buffer)
    → IsBuffer b
    → ((s : Bytes) → got ≡ some s → length s ≤ client_buflen - b.ilen)
    → IsRead got b (received got b)
unfolding received
received-IsRead none b h le = tt
received-IsRead (some []) b h le = tt
received-IsRead (some (c ∷ got)) b h le =
    let fits : leb (length b.ibuf) (b.ilen + length (c ∷ got)) ≡ false =
      ground (arith, h.size, room_of b h, le (c ∷ got) refl) in
    rw fits (receive-IsBuffer (c ∷ got) b h (le (c ∷ got) refl))

-- From a buffer of CLIENT_BUFLEN + 1 bytes with a 0 in or behind its input, for every recv that never
-- gives more bytes than it is asked for, client_read stores nothing past the end of the buffer, and
-- what it calls `ifunc` with is such a buffer, whose input is the one before and what recv answered,
-- with a 0 right behind it.
pub client_read-IsRead :
    (cond : Bool) (recv : ℕ → Option Bytes) (b : Buffer)
    → ((n : ℕ) (s : Bytes) → recv n ≡ some s → length s ≤ n)
    → IsBuffer b
    → IsRead (recv (client_buflen - b.ilen)) b (client_read cond recv b)
unfolding client_read
client_read-IsRead false recv b le h = tt
client_read-IsRead true recv b le h =
    received-IsRead (recv (client_buflen - b.ilen)) b h (le (client_buflen - b.ilen))
