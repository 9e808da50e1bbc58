-- ===== src/Format/Table.antt =====
-- proto_fmt.c: ecpy and mkvtab, which write the fields of a record into a static buffer, with tabs
-- between them. A text stands for the bytes before its terminating 0. The letters of a format and the
-- arguments that follow it are one list of fields.
use dudld.Common.{
  ℕ, suc, ◌+◌, ◌-◌, ◌^◌, true, ◌==◌, ltb, leb, if◌then◌else◌, Bytes, List, [], ◌∷◌, Option, length,
}
use dudld.Common.Memory.{Memory, store, stores, snprintf, c_string}
use dudld.ParseExpr.Text.{print_int}

abbrev pub blen : ℕ
blen = 4096

-- The buffer, the place that the pointer into it is at, and the number of bytes that were asked for.
pub record Cursor : Type 0 where
  pub mem : Memory
  pub buffer : ℕ
  pub used : ℕ

-- EADDC
unfoldable pub eaddc : ℕ → ℕ → Cursor → Cursor
eaddc len c k =
    let t = record k { used = suc k.used } in
    if ltb k.used len then record t { mem = store k.buffer c k.mem; buffer = suc k.buffer } else t

-- EADD
unfoldable pub eadd : ℕ → ℕ → Cursor → Cursor
eadd len c k =
    if c == b'\t'
    then eaddc len b't' (eaddc len b'\\' k)
    else if c == b'\\'
    then eaddc len b'\\' (eaddc len b'\\' k)
    else eaddc len c k

-- The loop of ecpy.
unfoldable pub eadds : ℕ → Bytes → Cursor → Cursor
eadds len [] k = k
eadds len (c ∷ s) k = eadds len s (eadd len c k)

-- ecpy into the space of `size` bytes of which `used` are taken; where more are, its `len` is negative, and
-- `buffer[ --len ]` may be in front of the array.
unfoldable pub ecpy : Memory → ℕ → ℕ → ℕ → Bytes → Memory × ℕ
ecpy m buffer size used s =
    let len = size - used - 1 in
    let m1 : Memory =
      if ltb used (buffer + size)
      then store (buffer + size - used - 1) 0 m
      else record m { outside = true } in
    let k = eadds len s (record { mem = m1; buffer = buffer; used = 0 }) in
    (if ltb k.used len then store k.buffer 0 k.mem else k.mem, k.used)

-- A letter of a format with its argument: 's', 't', 'c', 'd' or another.
pub data Field : Type 0 where
  str text : Bytes → Field
  char int : ℕ → Field
  invalid : Field

-- The size that snprintf is handed, BLEN -used as a size_t.
unfoldable pub room : ℕ → ℕ
room used = if leb used blen then blen - used else 2 ^ 64 + blen - used

unfoldable pub put_field : Field → Cursor → Cursor
put_field (str s) k =
    let (m, l) = ecpy k.mem k.buffer blen k.used s in
    record { mem = m; buffer = k.buffer + l; used = k.used + l }
put_field (text s) k =
    let l = length s in
    if ltb l (blen - k.used)
    then record {
      mem = store (k.buffer + l) 0 (stores k.buffer s k.mem);
      buffer = k.buffer + l;
      used = k.used + l;
    }
    else k
put_field (char c) k = eadd blen c k
put_field (int n) k =
    let l = length (print_int n) in
    record {
      mem = snprintf k.buffer (room k.used) (print_int n) k.mem;
      buffer = k.buffer + l;
      used = k.used + l;
    }
put_field invalid k = eaddc blen b'?' k

-- The loop of mkvtab.
unfoldable pub put_fields : List Field → Cursor → Cursor
put_fields [] k = k
put_fields (f ∷ fs) k = put_fields fs (put_field f (if k.used == 0 then k else eaddc blen b'\t' k))

module _ (strdup : Bytes → Option Bytes) where
  -- mktab, with the buffer as it was left before.
  unfoldable pub mktab : Memory → List Field → Memory × Option Bytes
  mktab buf fs =
      let k = put_fields fs (record { mem = store 0 0 buf; buffer = 0; used = 0 }) in
      let m = if ltb k.used blen then store k.buffer 0 k.mem else k.mem in
      (m, strdup (c_string m.bytes))
