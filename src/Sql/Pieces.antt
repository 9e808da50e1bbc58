-- ===== src/Sql/Pieces.antt =====
-- The pieces that sql_expr of pgdb/filter.c prints.
use dudld.Common.{
  ◌≡◌, refl, subst, Bool, true, false, Bytes, List, [], ◌∷◌, ◌++◌, Option, none, some, codes, All,
  if◌then◌else◌,
}
use dudld.Common.Writer.{Prints, Prints-emit, Prints-skip}
use dudld.ParseExpr.Syntax.{Value, num, string, ValTest}
use dudld.ParseExpr.Text.{print_int}
use dudld.Sql.Escape.{db_escape}
use dudld.Sql.Filter.{
  Func, f_num, f_year, f_tagre, f_string, sql_ids, print_func, is_entry, find_format,
  sql_valtestfmt, SqlValtestfmt, oper_names, print_row, print_year, quote,
}
use dudld.Sql.Reading.{
  Place, outside, dash, inside, read_byte, read_text, read_both, IsStatement, read_text-db_escape,
  outside-print_int,
}
use dudld.Sql.Texts.{oper_names-IsStatement, print_year-inside, quote-IsStatement, is_out}

abbrev pub ids_text : Option Bytes → Bytes
ids_text none = []
ids_text (some []) = []
ids_text (some (c ∷ s)) =
    codes "EXISTS( SELECT file_id FROM mserv_filetag ft WHERE t.id = ft.file_id AND ft.tag_id IN ("
    ++ ((c ∷ s) ++ codes "))")

pub sql_ids-Prints : (o : Option Bytes) → Prints true (sql_ids o) (ids_text o)
unfolding sql_ids
sql_ids-Prints none = Prints-skip
sql_ids-Prints (some []) = Prints-skip
sql_ids-Prints (some (c ∷ s)) = Prints-emit true _

closed : (q : Place) → is_out q ≡ true → read_text q (codes "))") ≡ some outside
unfolding read_text read_byte
closed outside h = refl
closed dash h = refl
closed inside h = absurd (cc h)

pub ids_text-IsStatement :
    (o : Option Bytes)
    → ((x : Bytes) → o ≡ some x → (q : Place) × (read_text outside x ≡ some q) × (is_out q ≡ true))
    → IsStatement (ids_text o)
unfolding read_text read_byte
ids_text-IsStatement none h = refl
ids_text-IsStatement (some []) h = refl
ids_text-IsStatement (some (c ∷ s)) h =
    let (q, r, o) = h (c ∷ s) refl in read_both outside q (c ∷ s) (codes "))") r (closed q o)

-- What the functions of the table print that ask for nothing.
abbrev pub func_text : Func → ValTest → Value → Option Bytes → Bytes
func_text f_num vt (num n) row =
    print_row row ++ (b' ' ∷ (oper_names vt.op ++ (b' ' ∷ print_int n)))
func_text f_year vt (num n) row =
    print_row row ++ (b' ' ∷ (oper_names vt.op ++ (codes " '" ++ (print_year n ++ codes "'"))))
func_text f_tagre vt (string s) row =
    codes
      "EXISTS( SELECT file_id FROM mserv_filetag ft INNER JOIN mserv_tag tag ON ft.tag_id = tag.id WHERE t.id = ft.file_id AND tag.name "
    ++ (oper_names vt.op ++ (codes " '" ++ (db_escape s ++ codes "')")))
func_text f_string vt (string s) row =
    print_row row ++ (b' ' ∷ (oper_names vt.op ++ (b' ' ∷ quote s)))
func_text _ vt v row = []

pub print_func-Prints :
    (f : Func) (t : ValTest) (v : Value) (row : Option Bytes)
    → Prints true (print_func f t v row) (func_text f t v row)
unfolding print_func
print_func-Prints f_num t (num n) row = Prints-emit true _
print_func-Prints f_year t (num n) row = Prints-emit true _
print_func-Prints f_tagre t (string s) row = Prints-emit true _
print_func-Prints f_string t (string s) row = Prints-emit true _
print_func-Prints _ t v row = Prints-skip

pub func_text-IsStatement :
    (f : Func) (t : ValTest) (v : Value) (row : Option Bytes)
    → IsStatement (print_row row)
    → IsStatement (func_text f t v row)
unfolding read_text read_byte
func_text-IsStatement f_num t (num n) row h = read_both outside outside (print_row row) _ h (
    read_both outside outside (oper_names t.op) _ (oper_names-IsStatement t.op)
      (outside-print_int n))
func_text-IsStatement f_year t (num n) row h = read_both outside outside (print_row row) _ h (
    read_both outside outside (oper_names t.op) _ (oper_names-IsStatement t.op)
      (read_both inside inside (print_year n) (codes "'") (print_year-inside n) refl))
func_text-IsStatement f_tagre t (string s) row h =
    read_both outside outside (oper_names t.op) _ (oper_names-IsStatement t.op)
      (read_both inside inside (db_escape s) (codes "')") (read_text-db_escape s) refl)
func_text-IsStatement f_string t (string s) row h = read_both outside outside (print_row row) _ h (
    read_both outside outside (oper_names t.op) _ (oper_names-IsStatement t.op)
      (quote-IsStatement s))
func_text-IsStatement _ t v row h = refl

-- The rows of the table.
abbrev pub HasRow : SqlValtestfmt → Type 0
HasRow f = IsStatement (print_row f.row)

sql_valtestfmt-HasRow : All HasRow sql_valtestfmt
unfolding read_text read_byte
sql_valtestfmt-HasRow = (
  refl,
  (
    refl,
    (
      refl,
      (
        refl,
        (
          refl,
          (
            refl,
            (
              refl,
              (
                refl,
                (
                  refl,
                  (
                    refl,
                    (
                      refl,
                      (
                        refl,
                        (
                          refl,
                          (
                            refl,
                            (
                              refl,
                              (
                                refl,
                                (
                                  refl,
                                  (
                                    refl,
                                    (
                                      refl,
                                      (
                                        refl,
                                        (
                                          refl,
                                          (
                                            refl,
                                            (
                                              refl,
                                              (
                                                refl,
                                                (
                                                  refl,
                                                  (
                                                    refl,
                                                    (
                                                      refl,
                                                      (refl, (refl, (refl, (refl, (refl, tt))))),
                                                    ),
                                                  ),
                                                ),
                                              ),
                                            ),
                                          ),
                                        ),
                                      ),
                                    ),
                                  ),
                                ),
                              ),
                            ),
                          ),
                        ),
                      ),
                    ),
                  ),
                ),
              ),
            ),
          ),
        ),
      ),
    ),
  ),
)

found_row :
    (g f : SqlValtestfmt) (o : Option SqlValtestfmt) (b : Bool)
    → HasRow g
    → (o ≡ some f → HasRow f)
    → (if b then some g else o) ≡ some f
    → HasRow f
found_row g f o true h k e = let i : g ≡ f = cc e in subst HasRow i h
found_row g f o false h k e = k e

format-HasRow :
    (t : ValTest) (fs : List SqlValtestfmt)
    → All HasRow fs
    → (f : SqlValtestfmt) → find_format t fs ≡ some f
    → HasRow f
unfolding find_format
format-HasRow t [] h f e = absurd (cc e)
format-HasRow t (g ∷ fs) (h, hs) f e = found_row g f _ (is_entry t g) h (format-HasRow t fs hs f) e

pub find_format-HasRow :
    (t : ValTest) (f : SqlValtestfmt) → find_format t sql_valtestfmt ≡ some f → HasRow f
find_format-HasRow t f e = format-HasRow t sql_valtestfmt sql_valtestfmt-HasRow f e
