-- ===== src/Client/BoundsTests.antt =====
-- The theorems on the buffer of client.c at a buffer of its size.
use dudld.Common.{
  ℕ, length-replicate, length-take, refl, ap, arith, true, Option, some, Bytes, [], ◌∷◌, ◌++◌, ◌≡◌,
  ◌≤◌, ◌-◌, length, take, replicate,
}
use dudld.Client.Line.{client_buflen, Buffer, client_read}
use dudld.Client.FirstLine.{filled}
use dudld.Client.Tests.{text}
use dudld.Client.Bounds.{IsBuffer, IsRead, client_read-IsRead}

abbrev lines : Buffer
lines = filled (10 ∷ 13 ∷ []) text 10 (10 ∷ 13 ∷ []) text (replicate 10231 0)

lines-IsBuffer : IsBuffer lines
lines-IsBuffer = record {
  size = omega (arith, length-replicate {A = ℕ} 10231 0);
  front = 10 ∷ 13 ∷ (text ++ (10 ∷ 10 ∷ 13 ∷ text));
  rest = replicate 10231 0;
  ended = refl;
  room = omega arith;
}

-- A peer that has sent `text`.
abbrev recv : ℕ → Option Bytes
recv n = some (take n text)

some_inj : (a b : Bytes) → some a ≡ some b → a ≡ b
some_inj a b e = ground (arith, e)

recv-fits : (n : ℕ) (s : Bytes) → recv n ≡ some s → length s ≤ n
recv-fits n s e = omega (arith, ap length (some_inj (take n text) s e), length-take n text)

client_read-IsRead_example : IsRead (recv (client_buflen - 9)) lines (client_read true recv lines)
client_read-IsRead_example = client_read-IsRead true recv lines recv-fits lines-IsBuffer
