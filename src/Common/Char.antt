-- ===== src/Common/Char.antt =====
-- The <ctype.h> tests in the C locale. A `char` is held as its byte, 0 to 255; the `int` that a
-- function such as PI_NEXT returns is `some` byte, or `none` for EOF. No test holds of EOF or of a
-- byte above 127.
use dudld.Common.{
  ℕ, ◌+◌, ◌≡◌, Bool, false, ◌&&◌, ◌||◌, Option, none, some, arith, leb, ◌==◌, if◌then◌else◌,
}

unfoldable pub isspace : ℕ → Bool
isspace c = c == 32 || (leb 9 c && leb c 13)

unfoldable pub isdigit : ℕ → Bool
isdigit c = leb b'0' c && leb c b'9'

unfoldable pub isalnum : ℕ → Bool
isalnum c = (leb b'0' c && leb c b'9') || (leb b'A' c && leb c b'Z') || (leb b'a' c && leb c b'z')

unfoldable pub tolower : ℕ → ℕ
tolower c = if leb b'A' c && leb c b'Z' then c + 32 else c

-- A test applied to an `int`.
abbrev pub holds : (ℕ → Bool) → Option ℕ → Bool
holds test none = false
holds test (some c) = test c

-- The test `c == 'x'` on an `int`.
abbrev pub is_char : ℕ → Option ℕ → Bool
is_char x none = false
is_char x (some c) = c == x

pub tolower_idem : (c : ℕ) → tolower (tolower c) ≡ tolower c
unfolding tolower
tolower_idem c = ground arith
