-- ===== src/ParseExpr/Tables.antt =====
-- commondb/parseexpr.c: the tables of field names, operator names and allowed tests, and the
-- searches through them. Enumerators are compared as numbers, as in C.
use dudld.Common.{
  same_text, ℕ, Bool, true, false, ◌&&◌, List, [], ◌∷◌, Option, none, some, Bytes, codes, ◌==◌,
  if◌then◌else◌,
}
use dudld.ParseExpr.Syntax.{
  ValType, vt_none, vt_num, vt_string, vt_list, ValOp, vo_none, vo_eq, vo_lt, vo_le, vo_gt, vo_ge,
  vo_in, vo_re, ValField, vf_none, vf_dur, vf_lplay, vf_tag, vf_artist, vf_title, vf_album, vf_year,
  vf_pos,
}

abbrev pub type_code : ValType → ℕ
type_code vt_none = 0
type_code vt_num = 1
type_code vt_string = 2
type_code vt_list = 3

abbrev pub op_code : ValOp → ℕ
op_code vo_none = 0
op_code vo_eq = 1
op_code vo_lt = 2
op_code vo_le = 3
op_code vo_gt = 4
op_code vo_ge = 5
op_code vo_in = 6
op_code vo_re = 7

abbrev pub field_code : ValField → ℕ
field_code vf_none = 0
field_code vf_dur = 1
field_code vf_lplay = 2
field_code vf_tag = 3
field_code vf_artist = 4
field_code vf_title = 5
field_code vf_album = 6
field_code vf_year = 7
field_code vf_pos = 8

unfoldable pub valfield_name : ValField → Bytes
valfield_name vf_none = codes ""
valfield_name vf_dur = codes "duration"
valfield_name vf_lplay = codes "lastplay"
valfield_name vf_tag = codes "tag"
valfield_name vf_artist = codes "artist"
valfield_name vf_title = codes "title"
valfield_name vf_album = codes "album"
valfield_name vf_year = codes "year"
valfield_name vf_pos = codes "pos"

unfoldable pub valop_name : ValOp → Bytes
valop_name vo_none = codes ""
valop_name vo_eq = codes "="
valop_name vo_lt = codes "<"
valop_name vo_le = codes "<="
valop_name vo_gt = codes ">"
valop_name vo_ge = codes ">="
valop_name vo_in = codes "IN"
valop_name vo_re = codes "~"

abbrev pub all_fields : List ValField
all_fields =
    vf_none ∷ vf_dur ∷ vf_lplay ∷ vf_tag ∷ vf_artist ∷ vf_title ∷ vf_album ∷ vf_year ∷ vf_pos ∷ []

-- The loop over the field names, from the first; `none` is vf_max.
find_field : Bytes → List ValField → Option ValField
unfolding same_text valfield_name
find_field name [] = none
find_field name (f ∷ fs) = if same_text name (valfield_name f) then some f else find_field name fs

unfoldable pub field_of : Bytes → Option ValField
unfolding find_field
field_of name = find_field name all_fields

abbrev pub TestType : Type 0
TestType = ValField × ValOp × ValType

abbrev pub vttypes : List TestType
vttypes =
    (vf_dur, vo_eq, vt_num)
    ∷ (vf_dur, vo_lt, vt_num)
    ∷ (vf_dur, vo_le, vt_num)
    ∷ (vf_dur, vo_gt, vt_num)
    ∷ (vf_dur, vo_ge, vt_num)
    ∷ (vf_lplay, vo_eq, vt_num)
    ∷ (vf_lplay, vo_lt, vt_num)
    ∷ (vf_lplay, vo_le, vt_num)
    ∷ (vf_lplay, vo_gt, vt_num)
    ∷ (vf_lplay, vo_ge, vt_num)
    ∷ (vf_year, vo_eq, vt_num)
    ∷ (vf_year, vo_lt, vt_num)
    ∷ (vf_year, vo_le, vt_num)
    ∷ (vf_year, vo_gt, vt_num)
    ∷ (vf_year, vo_ge, vt_num)
    ∷ (vf_tag, vo_eq, vt_num)
    ∷ (vf_tag, vo_eq, vt_string)
    ∷ (vf_tag, vo_re, vt_string)
    ∷ (vf_tag, vo_in, vt_list)
    ∷ (vf_title, vo_eq, vt_string)
    ∷ (vf_title, vo_re, vt_string)
    ∷ (vf_artist, vo_eq, vt_string)
    ∷ (vf_artist, vo_eq, vt_num)
    ∷ (vf_artist, vo_re, vt_string)
    ∷ (vf_album, vo_eq, vt_string)
    ∷ (vf_album, vo_eq, vt_num)
    ∷ (vf_album, vo_re, vt_string)
    ∷ (vf_pos, vo_eq, vt_num)
    ∷ (vf_pos, vo_lt, vt_num)
    ∷ (vf_pos, vo_le, vt_num)
    ∷ (vf_pos, vo_gt, vt_num)
    ∷ (vf_pos, vo_ge, vt_num)
    ∷ []

-- The loop over the table, from the first entry.
unfoldable pub find_test : ValField → ValOp → ValType → List TestType → Bool
find_test f o t [] = false
find_test f o t ((f', o', t') ∷ rows) =
    if field_code f' == field_code f && op_code o' == op_code o && type_code t' == type_code t
    then true
    else find_test f o t rows

unfoldable pub is_valid : ValField → ValOp → ValType → Bool
unfolding find_test
is_valid f o t = find_test f o t vttypes
