-- ===== src/Pgdb/Kept/Filters.antt =====
-- sql_expr of pgdb/filter.c sends statements, and what it leaves can be read as a part of one.
use dudld.Common.{
  ℕ, ◌≡◌, refl, arith, Bool, true, false, Bytes, List, [], ◌∷◌, ◌++◌, Option, none, some, codes,
  if◌then◌else◌, ltb, map, append_assoc, take,
}
use dudld.Common.Memory.{Memory, store, IsIntact}
use dudld.Common.Writer.{Writer}
use dudld.ParseExpr.Syntax.{
  Value, Values, list, nil, cons, ValTest, Expr, op_self, op_not, op_and, op_or,
}
use dudld.Sql.Asking.{Asking, just, ◌▹◌}
use dudld.Common.Writer.{skip}
use dudld.Sql.Filter.{
  Func, f_tag, f_taglist, sql_len, ask_names, strings_of, numbers_of, into_array, comma_fmt, quote,
  sql_tags2id, sql_taglist, run_func, find_format, sql_valtestfmt, SqlValtestfmt, sql_valtest,
  sql_expr,
}
use dudld.Sql.Reading.{Place, outside, dash, inside, read_byte, read_text, read_both, Reads}
use dudld.Sql.Texts.{names-Reads, take_front, c_string-take}
use dudld.Sql.Bounds.{Writes-sql_expr, sql_expr-Begins}
use dudld.Pgdb.Server.{Server, Db}
use dudld.Pgdb.Statement.{query_place, raw_place}
use dudld.Pgdb.Runs.{IsClean, Keeps}
use dudld.Pgdb.Kept.{Keeps-select-pure}
use dudld.Pgdb.Filters.{tag_ids, where_of}

names_closed : (q : Place) → Reads q (codes ")")
unfolding read_text read_byte
names_closed outside = (outside, refl)
names_closed dash = (outside, refl)
names_closed inside = (inside, refl)

-- The text of the query for the tags of some names.
tags_query-Reads :
    (x : Bytes)
    → Reads outside x
    → Reads outside (codes "SELECT id FROM mserv_tag WHERE name IN (" ++ (x ++ codes ")"))
unfolding read_text read_byte
tags_query-Reads x (q, h) =
    ((names_closed q).0, read_both outside q x (codes ")") h (names_closed q).1)

module _ {p : Server} (opened_cb : Db p → Db p)
    (opened : (k : ℕ) (s : Db p) → IsClean k s → IsClean k (opened_cb s)) (k : ℕ) (sbuf : Memory)
    (intact : IsIntact sql_len sbuf) where
  Keeps-tag_ids : (x : Bytes) → Reads outside x → Keeps k (tag_ids p opened_cb x)
  unfolding tag_ids query_place
  Keeps-tag_ids x (q, h) =
      Keeps-select-pure opened_cb opened k none _ _ (q, raw_place outside q x [] h refl)

  Keeps-ask_names :
      (ids : List ℕ) (o : Option Bytes)
      → ((x : Bytes) → o ≡ some x → Reads outside x)
      → (s : Db p) → IsClean k s
      → IsClean k (ask_names (tag_ids p opened_cb) sbuf ids o s).0
  unfolding ask_names
  Keeps-ask_names ids none h s c = c
  Keeps-ask_names ids (some x) h s c = (Keeps-tag_ids _ (tags_query-Reads x (h x refl))).at s c

  Keeps-sql_tags2id :
      (vs : Values) (s : Db p)
      → IsClean k s
      → IsClean k (sql_tags2id (tag_ids p opened_cb) sbuf vs s).0
  unfolding sql_tags2id
  Keeps-sql_tags2id vs s c = named (strings_of vs)
    where
      named :
          (xs : List Bytes)
          → let r : Db p × Option (List ℕ) = elim xs [
            | [] ↦ (s, some (numbers_of vs))
            | x ∷ ys ↦
                ask_names
                  (tag_ids p opened_cb)
                  sbuf
                  (numbers_of vs)
                  (into_array sbuf (comma_fmt (map quote (x ∷ ys))))
                  s
          ] in
            IsClean k r.0
      named [] = c
      named (x ∷ ys) =
          Keeps-ask_names (numbers_of vs) _ (λ y e. names-Reads sbuf (x ∷ ys) y intact e) s c

  -- Printing that keeps what is asked for.
  record Asks (a : Asking (Db p)) : Type 0 where
    at : (m : Memory) (i len : ℕ) (s : Db p) → IsClean k s → IsClean k (a m i len s).0

  Asks-just : (w : Writer) → Asks (just w)
  Asks-just w = record { at = λ m i len s c. c }

  Asks-then : (a b : Asking (Db p)) → Asks a → Asks b → Asks (a ▹ b)
  unfolding ◌▹◌
  Asks-then a b h g = record {
    at = λ m i len s c.
        let d = h.at m i len s c in by_branch (ltb len (a m i len s).1.1) _ _ d (g.at _ _ _ _ d);
  }
    where
      by_branch :
          (e : Bool) (x y : Db p × (Memory × ℕ))
          → IsClean k x.0
          → IsClean k y.0
          → IsClean k (if e then x else y).0
      by_branch true x y c d = c
      by_branch false x y c d = d

  Asks-sql_taglist : (vs : Values) → Asks (sql_taglist (tag_ids p opened_cb) sbuf vs)
  unfolding sql_taglist
  Asks-sql_taglist vs = record { at = λ m i len s c. Keeps-sql_tags2id vs s c }

  Asks-run_func :
      (f : Func) (t : ValTest) (v : Value) (row : Option Bytes)
      → Asks (run_func (tag_ids p opened_cb) sbuf f t v row)
  unfolding run_func
  Asks-run_func f_tag t v row = Asks-sql_taglist (cons v nil)
  Asks-run_func f_taglist t (list vs) row = Asks-sql_taglist vs
  Asks-run_func f t v row = Asks-just _

  Asks-sql_valtest : (t : ValTest) → Asks (sql_valtest (tag_ids p opened_cb) sbuf t)
  unfolding sql_valtest
  Asks-sql_valtest t = with_format (find_format t sql_valtestfmt)
    where
      with_format :
          (o : Option SqlValtestfmt)
          → Asks (elim o [
            | none ↦ just skip
            | some f ↦ run_func (tag_ids p opened_cb) sbuf f.func t t.val f.row
          ])
      with_format none = Asks-just skip
      with_format (some f) = Asks-run_func f.func t t.val f.row

  Asks-sql_expr : (e : Expr) → Asks (sql_expr (tag_ids p opened_cb) sbuf e)
  unfolding sql_expr
  Asks-sql_expr (op_self t) = Asks-sql_valtest t
  Asks-sql_expr (op_not e) =
      Asks-then _ _ (Asks-just _) (Asks-then _ _ (Asks-sql_expr e) (Asks-just _))
  Asks-sql_expr (op_and a b) = Asks-then _ _ (Asks-just _) (
      Asks-then _ _ (Asks-sql_expr a)
        (Asks-then _ _ (Asks-just _) (Asks-then _ _ (Asks-sql_expr b) (Asks-just _))))
  Asks-sql_expr (op_or a b) = Asks-then _ _ (Asks-just _) (
      Asks-then _ _ (Asks-sql_expr a)
        (Asks-then _ _ (Asks-just _) (Asks-then _ _ (Asks-sql_expr b) (Asks-just _))))

  -- Where the callback of db_init itself sends only texts that can be read and clears its results, and
  -- the arrays are as large as they are declared, making the SQL of any filter sends only texts that
  -- can be read and leaves as many results as before, and the SQL that is left in the array of 4096
  -- bytes, cut off or not, can be read with no ';', no comment and no escape outside of its quotes,
  -- whatever the names in the filter hold and the database answers.
  pub where_of-Reads :
      (stack : Memory)
      → IsIntact 4096 stack
      → (e : Expr) (s : Db p) → IsClean k s
      → IsClean k (where_of p opened_cb sbuf stack e s).0
        × Reads outside (where_of p opened_cb sbuf stack e s).1
  unfolding where_of
  where_of-Reads stack i e s c =
      let q = tag_ids p opened_cb in
      let w = Writes-sql_expr q sbuf e in
      let t = w.does.text s in
      let r = sql_expr-Begins q sbuf e 4096 4095 stack s i (omega arith) in
      let (n, f) = c_string-take (take 4095 t) r.begins.rest in
      let g = append_assoc (take 4095 t) (0 ∷ []) r.begins.rest in
      (
        (Asks-sql_expr e).at (store 0 0 stack) 0 4096 s c,
        take_front 4095 n t _ (cc (f, r.begins.bytes, g)) (w.reads intact s),
      )
