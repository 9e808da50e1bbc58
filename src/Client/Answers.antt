-- ===== src/Client/Answers.antt =====
-- What client_getline of client.c answers, from every buffer that holds a 0 in or behind its input.
use dudld.Common.{ℕ, ltb, ◌≢◌, ◌≤◌, ◌<◌, ◌≡◌, ◌⊎◌, true, Bytes, [], ◌∷◌, ◌++◌, drop, ltb}
use dudld.Client.Line.{
  is_break, client_buflen, Buffer, GetLine, line, no_line, too_long, fault, past,
}
use dudld.Client.FirstLine.{Breaks, IsLine}
use dudld.Client.Lines.{after}
use dudld.Client.Bounds.{held, IsBuffer}

-- No byte of the linebreaks and the line is 0.
NotZero : ℕ → Type 0
NotZero c = c ≢ 0

-- What a call of client_getline leaves and answers. A line that it returns stood in the input behind
-- linebreaks, and in front of at least one, and the input left is what stood behind those.
pub record IsTaken (b : Buffer) (l : Bytes) (after : Buffer) : Type 0 where
  pub before : Bytes
  pub at : ℕ
  pub breaks : Bytes
  pub is_buffer : IsBuffer after
  pub before_breaks : Breaks before
  pub is_line : IsLine l
  pub nonempty : l ≢ []
  pub is_break : is_break at ≡ true
  pub are_breaks : Breaks breaks
  pub parts : held b ≡ (before ++ (l ++ (at ∷ breaks))) ++ held after

-- NULL leaves the buffer, and ends the connection only where the buffer is full; memmove gets a length
-- below 0 only where the byte behind the input is not a 0; nothing is read past the end.
abbrev pub IsAnswer : Buffer → GetLine → Type 0
IsAnswer b (line l after) = IsTaken b l after
IsAnswer b (no_line after) = (after ≡ b) × (b.del ≡ true ⊎ b.ilen < client_buflen)
IsAnswer b (too_long after) = (after ≡ b) × (client_buflen ≤ b.ilen)
IsAnswer b fault = (rest : Bytes) → drop b.ilen b.ibuf ≡ 0 ∷ rest → ⊥
IsAnswer b past = ⊥
