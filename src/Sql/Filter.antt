-- ===== src/Sql/Filter.antt =====
-- pgdb/filter.c: the SQL that it writes for a filter. What db_query and PostgreSQL answer to the query for
-- the tags of some names is a parameter, `query`, that may change a state, and so is what the static buffer
-- `sbuf` held before. Memory does not run out. What sql_taglist frees is left out, also that numbers of the filter are among it.
use dudld.Common.{
  ℕ, ◌-◌, ◌^◌, ◌==◌, ltb, if◌then◌else◌, Bool, ◌&&◌, Bytes, List, [], ◌∷◌, ◌++◌, Option, none, some,
  codes, length, replicate, map,
}
use dudld.Common.Memory.{Memory, store, c_string}
use dudld.Common.Writer.{Writer, emit, skip, ◌▸◌}
use dudld.ParseExpr.Syntax.{
  ValType, vt_num, vt_string, vt_list, ValOp, vo_none, vo_eq, vo_lt, vo_le, vo_gt, vo_ge, vo_in,
  vo_re, ValField, vf_dur, vf_lplay, vf_tag, vf_artist, vf_title, vf_album, vf_year, vf_pos, Value,
  Values, num, string, list, nil, cons, type_of, ValTest, Expr, op_self, op_not, op_and, op_or,
}
use dudld.ParseExpr.Tables.{field_code, op_code, type_code}
use dudld.ParseExpr.Text.{print_int, digits}
use dudld.Sql.Asking.{Asking, just, ◌▹◌}
use dudld.Sql.Escape.{db_escape}

abbrev pub sql_len : ℕ
sql_len = 1024

unfoldable pub oper_names : ValOp → Bytes
oper_names vo_none = codes ""
oper_names vo_eq = codes "="
oper_names vo_lt = codes "<"
oper_names vo_le = codes "<="
oper_names vo_gt = codes ">"
oper_names vo_ge = codes ">="
oper_names vo_in = codes "IN"
oper_names vo_re = codes "~*"

-- "%04d"
unfoldable pub print_year : ℕ → Bytes
print_year n =
    let small = digits 9 n in
    let minus = digits 9 (2 ^ 32 - n) in
    if ltb n (2 ^ 31)
    then replicate (4 - length small) b'0' ++ small
    else b'-' ∷ (replicate (3 - length minus) b'0' ++ minus)

-- "%s" of a name that may be NULL.
abbrev pub print_row : Option Bytes → Bytes
print_row none = codes "(null)"
print_row (some row) = row

-- The functions of the table.
pub data Func : Type 0 where
  f_num f_year f_tag f_taglist f_tagre f_string : Func

pub record SqlValtestfmt : Type 0 where
  pub field : ValField
  pub op : ValOp
  pub type : ValType
  pub func : Func
  pub row : Option Bytes

abbrev entry : ValField → ValOp → ValType → Func → Option Bytes → SqlValtestfmt
entry field op type func row = record {
  field = field;
  op = op;
  type = type;
  func = func;
  row = row;
}

-- The table, without the entry that ends it.
abbrev pub sql_valtestfmt : List SqlValtestfmt
sql_valtestfmt =
    entry vf_dur vo_eq vt_num f_num (some (codes "dur"))
    ∷ entry vf_dur vo_lt vt_num f_num (some (codes "dur"))
    ∷ entry vf_dur vo_le vt_num f_num (some (codes "dur"))
    ∷ entry vf_dur vo_gt vt_num f_num (some (codes "dur"))
    ∷ entry vf_dur vo_ge vt_num f_num (some (codes "dur"))
    ∷ entry vf_lplay vo_eq vt_num f_num (some (codes "lplay"))
    ∷ entry vf_lplay vo_lt vt_num f_num (some (codes "lplay"))
    ∷ entry vf_lplay vo_le vt_num f_num (some (codes "lplay"))
    ∷ entry vf_lplay vo_gt vt_num f_num (some (codes "lplay"))
    ∷ entry vf_lplay vo_ge vt_num f_num (some (codes "lplay"))
    ∷ entry vf_year vo_eq vt_num f_year (some (codes "album_publish_year"))
    ∷ entry vf_year vo_lt vt_num f_year (some (codes "album_publish_year"))
    ∷ entry vf_year vo_le vt_num f_year (some (codes "album_publish_year"))
    ∷ entry vf_year vo_gt vt_num f_year (some (codes "album_publish_year"))
    ∷ entry vf_year vo_ge vt_num f_year (some (codes "album_publish_year"))
    ∷ entry vf_tag vo_eq vt_num f_num none
    ∷ entry vf_tag vo_eq vt_string f_tag none
    ∷ entry vf_tag vo_re vt_string f_tagre none
    ∷ entry vf_tag vo_in vt_list f_taglist none
    ∷ entry vf_title vo_eq vt_string f_string (some (codes "lower(title)"))
    ∷ entry vf_title vo_re vt_string f_string (some (codes "title"))
    ∷ entry vf_artist vo_eq vt_string f_string (some (codes "lower(artist_name)"))
    ∷ entry vf_artist vo_eq vt_num f_num (some (codes "artist_id"))
    ∷ entry vf_artist vo_re vt_string f_string (some (codes "artist_name"))
    ∷ entry vf_album vo_eq vt_string f_string (some (codes "lower(album_name)"))
    ∷ entry vf_album vo_eq vt_num f_num (some (codes "album_id"))
    ∷ entry vf_album vo_re vt_string f_string (some (codes "album_name"))
    ∷ entry vf_pos vo_eq vt_num f_num (some (codes "album_pos"))
    ∷ entry vf_pos vo_lt vt_num f_num (some (codes "album_pos"))
    ∷ entry vf_pos vo_le vt_num f_num (some (codes "album_pos"))
    ∷ entry vf_pos vo_gt vt_num f_num (some (codes "album_pos"))
    ∷ entry vf_pos vo_ge vt_num f_num (some (codes "album_pos"))
    ∷ []

-- The numbers of a list, and its strings; lists inside it are passed over.
unfoldable pub numbers_of : Values → List ℕ
numbers_of nil = []
numbers_of (cons (num n) vs) = n ∷ numbers_of vs
numbers_of (cons _ vs) = numbers_of vs

unfoldable pub strings_of : Values → List Bytes
strings_of nil = []
strings_of (cons (string s) vs) = s ∷ strings_of vs
strings_of (cons _ vs) = strings_of vs

abbrev pub quote : Bytes → Bytes
quote s = b'\'' ∷ (db_escape s ++ b'\'' ∷ [])

-- The texts of a list with commas between them, piece by piece.
unfoldable pub comma_fmt : List Bytes → Writer
comma_fmt [] = skip
comma_fmt (s ∷ []) = emit s
comma_fmt (s ∷ t ∷ ss) = emit s ▸ (emit (codes ",") ▸ comma_fmt (t ∷ ss))

-- What a function leaves in an array of SQL_LEN bytes, where it did not ask for more.
unfoldable pub into_array : Memory → Writer → Option Bytes
into_array m p =
    let (r, used) = p (store 0 0 m) 0 sql_len in
    if ltb sql_len used then none else some (c_string r.bytes)

-- The test for an entry of the table, and the loop over it.
unfoldable pub is_entry : ValTest → SqlValtestfmt → Bool
is_entry vt f =
    field_code f.field == field_code vt.field
    && op_code f.op == op_code vt.op
    && type_code f.type == type_code (type_of vt.val)

unfoldable pub find_format : ValTest → List SqlValtestfmt → Option SqlValtestfmt
find_format vt [] = none
find_format vt (f ∷ fs) = let rest = find_format vt fs in if is_entry vt f then some f else rest

-- Behind sql_tags2id.
unfoldable pub sql_idlist : Memory → List ℕ → Option Bytes
sql_idlist sbuf ids = into_array sbuf (comma_fmt (map print_int ids))

unfoldable pub sql_ids : Option Bytes → Writer
sql_ids none = skip
sql_ids (some []) = skip
sql_ids (some (c ∷ s)) = emit (
    codes "EXISTS( SELECT file_id FROM mserv_filetag ft WHERE t.id = ft.file_id AND ft.tag_id IN ("
    ++ ((c ∷ s) ++ codes "))"))

unfoldable pub sql_tags : Memory → Option (List ℕ) → Writer
sql_tags sbuf none = skip
sql_tags sbuf (some ids) = sql_ids (sql_idlist sbuf ids)

-- A function of the table that asks for nothing.
unfoldable pub print_func : Func → ValTest → Value → Option Bytes → Writer
print_func f_num vt (num n) row =
    emit (print_row row ++ (b' ' ∷ (oper_names vt.op ++ (b' ' ∷ print_int n))))
print_func f_year vt (num n) row =
    emit
      (print_row row ++ (b' ' ∷ (oper_names vt.op ++ (codes " '" ++ (print_year n ++ codes "'")))))
print_func f_tagre vt (string s) row = emit (
    codes
      "EXISTS( SELECT file_id FROM mserv_filetag ft INNER JOIN mserv_tag tag ON ft.tag_id = tag.id WHERE t.id = ft.file_id AND tag.name "
    ++ (oper_names vt.op ++ (codes " '" ++ (db_escape s ++ codes "')"))))
print_func f_string vt (string s) row =
    emit (print_row row ++ (b' ' ∷ (oper_names vt.op ++ (b' ' ∷ quote s))))
print_func _ vt v row = skip

module _ {S : Type 0} (query : Bytes → S → S × Option (List ℕ)) (sbuf : Memory) where
  -- The query for the tags, where their names fit, and the numbers behind the ones that are there.
  unfoldable pub ask_names : List ℕ → Option Bytes → S → S × Option (List ℕ)
  ask_names ids none s = (s, none)
  ask_names ids (some sql) s =
      let (t, o) =
        query (codes "SELECT id FROM mserv_tag WHERE name IN (" ++ (sql ++ codes ")")) s in
      (t, elim o [ none ↦ none | some more ↦ some (ids ++ more) ])

  -- The numbers of the tags, or none where the names do not fit or the query fails.
  unfoldable pub sql_tags2id : Values → S → S × Option (List ℕ)
  sql_tags2id vs s = elim (strings_of vs) [
    | [] ↦ (s, some (numbers_of vs))
    | x ∷ xs ↦ ask_names (numbers_of vs) (into_array sbuf (comma_fmt (map quote (x ∷ xs)))) s
  ]

  unfoldable pub sql_taglist : Values → Asking S
  sql_taglist vs m at len s = let (t, o) = sql_tags2id vs s in (t, sql_tags sbuf o m at len)

  -- A function of the table on a test. The type of the value is the one of its entry; on another one the
  -- code would read the wrong member of a union.
  unfoldable pub run_func : Func → ValTest → Value → Option Bytes → Asking S
  run_func f_tag vt v row = sql_taglist (cons v nil)
  run_func f_taglist vt (list vs) row = sql_taglist vs
  run_func f vt v row = just (print_func f vt v row)

  unfoldable pub sql_valtest : ValTest → Asking S
  sql_valtest vt = elim (find_format vt sql_valtestfmt) [
    | none ↦ just skip
    | some f ↦ run_func f.func vt vt.val f.row
  ]

  unfoldable pub sql_expr : Expr → Asking S
  sql_expr (op_self t) = sql_valtest t
  sql_expr (op_not e) = just (emit (codes "NOT ( ")) ▹ (sql_expr e ▹ just (emit (codes " )")))
  sql_expr (op_and a b) =
      just (emit (codes "( "))
      ▹ (sql_expr a ▹ (just (emit (codes " )AND( ")) ▹ (sql_expr b ▹ just (emit (codes " )")))))
  sql_expr (op_or a b) =
      just (emit (codes "( "))
      ▹ (sql_expr a ▹ (just (emit (codes " )OR( ")) ▹ (sql_expr b ▹ just (emit (codes " )")))))
