-- ===== src/Common/Memory.antt =====
-- A `char` array that C code fills: its bytes, and whether anything was stored outside of it.
use Prim.Native.Nat.{ℕ, zero, suc, ◌+◌, ◌≤◌, ◌<◌}
use mathlib.Core.Path.{◌≡◌, refl, ◌∙◌, ap, subst, subst₂}
use mathlib.Core.Logic.{◌≢◌, ◌↔◌}
use mathlib.Core.List.{[], ◌∷◌, ◌++◌, append_assoc, append-nil}
use mathlib.Core.Bool.{Bool, true, false, ◌||◌}
use native.Mathlib.Nat.{zero-add, suc-add}
use native.Mathlib.Omega.{arith}
use dudld.Common.Tests.{leb, ◌==◌, ==_ne, if◌then◌else◌}
use dudld.Common.Lists.{
  Bytes, All, length, take, replicate, length-replicate, length-append, length-take,
}

pub record Memory : Type 0 where
  pub bytes : Bytes
  pub outside : Bool

abbrev pub set_byte : ℕ → ℕ → Bytes → Bytes
set_byte i c [] = []
set_byte zero c (x ∷ xs) = c ∷ xs
set_byte (suc i) c (x ∷ xs) = x ∷ set_byte i c xs

-- `m[i] = c`
unfoldable pub store : ℕ → ℕ → Memory → Memory
store i c m = record { bytes = set_byte i c m.bytes; outside = m.outside || leb (length m.bytes) i }

-- The bytes of a text, from a place on.
unfoldable pub stores : ℕ → Bytes → Memory → Memory
stores i [] m = m
stores i (c ∷ s) m = stores (suc i) s (store i c m)

-- snprintf( m +i, size, ... ) of a text: nothing where `size` is 0, else as much of it as fits in front
-- of a 0.
unfoldable pub snprintf : ℕ → ℕ → Bytes → Memory → Memory
snprintf i zero s m = m
snprintf i (suc size) s m = let t = take size s in store (i + length t) 0 (stores i t m)

-- The bytes in front of the first 0.
unfoldable pub c_string : Bytes → Bytes
c_string [] = []
c_string (c ∷ s) = let more = c_string s in if c == 0 then [] else c ∷ more

-- An array of zeros.
abbrev pub zeros : ℕ → Memory
zeros n = record { bytes = replicate n 0; outside = false }

-- An array of a size that begins with a text, nothing stored outside of it.
pub record Begins (w : Bytes) (n : ℕ) (m : Memory) : Type 0 where
  pub rest : Bytes
  pub bytes : m.bytes ≡ w ++ rest
  pub size : length w + length rest ≡ n
  pub inside : m.outside ≡ false

-- An array of a size, nothing stored outside of it.
pub record IsIntact (n : ℕ) (m : Memory) : Type 0 where
  pub size : length m.bytes ≡ n
  pub inside : m.outside ≡ false

set_byte-append :
    (w : Bytes) (i c : ℕ) (rest : Bytes)
    → set_byte (length w + i) c (w ++ rest) ≡ w ++ set_byte i c rest
set_byte-append [] i c rest = rw zero-add
set_byte-append (x ∷ w) i c rest = rw suc-add (rw (set_byte-append w i c rest))

length-set_byte : (i c : ℕ) (s : Bytes) → length (set_byte i c s) ≡ length s
length-set_byte i c [] = refl
length-set_byte zero c (x ∷ s) = refl
length-set_byte (suc i) c (x ∷ s) = omega (arith, length-set_byte i c s)

pub store-behind :
    {w : Bytes} {n : ℕ} {m : Memory} (i c : ℕ)
    → Begins w n m
    → length w + i < n
    → Begins w n (store (length w + i) c m)
unfolding store
store-behind {w = w} {m = m} i c h lt = record {
  rest = set_byte i c h.rest;
  bytes = rw (h.bytes, set_byte-append w i c h.rest);
  size = omega (arith, h.size, length-set_byte i c h.rest);
  inside = rw (h.bytes, h.inside) (ground (arith, h.size, length-append w h.rest));
}

pub Begins-front : {w : Bytes} {n : ℕ} {m : Memory} (s : Bytes) → Begins (w ++ s) n m → Begins w n m
Begins-front {w = w} s h = record {
  rest = s ++ h.rest;
  bytes = rw (h.bytes, append_assoc);
  size = omega (arith, h.size, length-append w s, length-append s h.rest);
  inside = h.inside;
}

set_byte-first :
    (c : ℕ) (s : Bytes)
    → 0 < length s
    → (t : Bytes) × (set_byte 0 c s ≡ c ∷ t) × (length s ≡ suc (length t))
set_byte-first c [] lt = absurd (omega arith)
set_byte-first c (x ∷ s) lt = (s, refl, refl)

-- The byte behind the text.
pub store-next :
    {w : Bytes} {n : ℕ} {m : Memory} (c : ℕ)
    → Begins w n m
    → length w < n
    → Begins (w ++ c ∷ []) n (store (length w) c m)
unfolding store
store-next {w = w} {m = m} c h lt =
    let (t, e, l) = set_byte-first c h.rest (omega (arith, h.size)) in
    let q : set_byte (length w) c (w ++ h.rest) ≡ w ++ c ∷ t =
      subst (λ i. set_byte i c (w ++ h.rest) ≡ w ++ c ∷ t) (omega arith)
        (set_byte-append w 0 c h.rest ∙ ap (λ r. w ++ r) e) in
    record {
      rest = t;
      bytes = rw (h.bytes, q, append_assoc);
      size = omega (arith, h.size, l, length-append w (c ∷ []));
      inside = rw (h.bytes, h.inside) (ground (arith, h.size, length-append w h.rest));
    }

pub stores-next :
    (s : Bytes) {w : Bytes} {n : ℕ} {m : Memory}
    → Begins w n m
    → length w + length s ≤ n
    → Begins (w ++ s) n (stores (length w) s m)
unfolding stores
stores-next [] {w = w} h le = rw append-nil h
stores-next (c ∷ s) {w = w} {n = n} {m = m} h le =
    let more =
      stores-next s (store-next c h (omega arith)) (omega (arith, length-append w (c ∷ []))) in
    subst₂ (λ v i. Begins v n (stores i s (store (length w) c m))) (append_assoc w (c ∷ []) s)
      (omega (arith, length-append w (c ∷ []))) more

-- The bytes that snprintf stores.
pub snprintf-take :
    {w : Bytes} {n : ℕ} {m : Memory} (s : Bytes) (k : ℕ)
    → Begins w n m
    → length w + k < n
    → Begins (w ++ take k s ++ 0 ∷ []) n (snprintf (length w) (suc k) s m)
unfolding snprintf
snprintf-take {w = w} {n = n} {m = m} s k h lt =
    let t = take k s in
    let l = length-take k s in
    let full =
      store-next 0 (stores-next t h (omega (arith, l))) (omega (arith, l, length-append w t)) in
    subst (λ i. Begins (w ++ t ++ 0 ∷ []) n (store i 0 (stores (length w) t m))) (length-append w t)
      full

pub take_all : (n : ℕ) (s : Bytes) → length s ≤ n → take n s ≡ s
take_all zero [] le = refl
take_all zero (x ∷ s) le = absurd (omega arith)
take_all (suc n) [] le = refl
take_all (suc n) (x ∷ s) le = rw (take_all n s (omega arith))

-- A text that fits, and the 0 behind it.
pub snprintf-next :
    {w : Bytes} {n : ℕ} {m : Memory} (s : Bytes) (size : ℕ)
    → Begins w n m
    → length s < size
    → length w + size ≤ n
    → Begins (w ++ s ++ 0 ∷ []) n (snprintf (length w) size s m)
unfolding snprintf
snprintf-next s zero h lt le = absurd (omega arith)
snprintf-next {w = w} {n = n} {m = m} s (suc size) h lt le =
    let e = take_all size s (omega arith) in
    subst (λ t. Begins (w ++ t ++ 0 ∷ []) n (snprintf (length w) (suc size) s m)) e
      (snprintf-take s size h (omega arith))

pub c_string-Begins : (w : Bytes) (rest : Bytes) → All (λ c. c ≢ 0) w → c_string (w ++ 0 ∷ rest) ≡ w
unfolding c_string
c_string-Begins [] rest nz = refl
c_string-Begins (c ∷ w) rest (h, nz) = rw (==_ne c 0 h, c_string-Begins w rest nz)

pub Begins-IsIntact : {w : Bytes} {n : ℕ} {m : Memory} → Begins w n m → IsIntact n m
Begins-IsIntact {w = w} h = record {
  size = rw h.bytes (length-append w h.rest ∙ h.size);
  inside = h.inside;
}

pub IsIntact-Begins : {n : ℕ} {m : Memory} → IsIntact n m → Begins [] n m
IsIntact-Begins {m = m} h = record {
  rest = m.bytes;
  bytes = refl;
  size = omega (arith, h.size);
  inside = h.inside;
}

pub store-IsIntact :
    {n : ℕ} {m : Memory} (i c : ℕ) → IsIntact n m → i < n → IsIntact n (store i c m)
unfolding store
store-IsIntact {n = n} {m = m} i c h lt = record {
  size = length-set_byte i c m.bytes ∙ h.size;
  inside = rw (h.inside, h.size) (ground arith);
}

pub store-outside :
    {n : ℕ} {m : Memory} (i c : ℕ) → IsIntact n m → ((store i c m).outside ≡ true) ↔ (n ≤ i)
unfolding store
store-outside i c h = rw (h.inside, h.size) (ground arith)

pub stores-IsIntact :
    (i : ℕ) (s : Bytes) {n : ℕ} {m : Memory}
    → IsIntact n m
    → i + length s ≤ n
    → IsIntact n (stores i s m)
unfolding stores
stores-IsIntact i [] h le = h
stores-IsIntact i (c ∷ s) h le =
    stores-IsIntact (suc i) s (store-IsIntact i c h (omega arith)) (omega arith)

-- A call of snprintf whose size stays inside.
pub snprintf-IsIntact :
    (i size : ℕ) (s : Bytes) {n : ℕ} {m : Memory}
    → IsIntact n m
    → i + size ≤ n
    → IsIntact n (snprintf i size s m)
unfolding snprintf
snprintf-IsIntact i zero s h le = h
snprintf-IsIntact i (suc size) s h le =
    let l = length-take size s in
    store-IsIntact (i + length (take size s)) 0
      (stores-IsIntact i (take size s) h (omega (arith, l))) (omega (arith, l))

pub zeros-IsIntact : (n : ℕ) → IsIntact n (zeros n)
zeros-IsIntact n = record { size = length-replicate n 0; inside = refl }
