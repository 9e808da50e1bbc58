-- ===== src/Pgdb/Startup.antt =====
-- main.c: the filter when the program starts, when the connection to the database comes up, and when the
-- program ends. The option "sfilter" and what the arrays hold before are parameters.
use dudld.Common.{ℕ, if◌then◌else◌, Bool, Bytes, [], ◌∷◌, Option, none, some}
use dudld.Common.Memory.{Memory, c_string}
use dudld.ParseExpr.Syntax.{Expr}
use dudld.ParseExpr.Parser.{parsed, failed, gave_up, expr_parse_str}
use dudld.ParseExpr.Print.{expr_fmt}
use dudld.Format.Records.{Sfilter}
use dudld.Commands.Session.{is_minus_one}
use dudld.Pgdb.Server.{Server, Db, M, pure, ◌>>=◌, ◌>>◌}
use dudld.Pgdb.Connection.{db_conn}
use dudld.Pgdb.Filters.{where_of}
use dudld.Pgdb.Random.{random_filter, random_init, random_setfilter}
use dudld.Pgdb.Tags.{sfilter_id, sfilter_get, sfilter_setfilter}

-- The tree of the text of a filter; NULL where it is empty or has an error.
unfoldable pub parse_filter : Bytes → Option Expr
parse_filter [] = none
parse_filter (c ∷ s) = elim (expr_parse_str (c ∷ s)) [
  | parsed e ↦ some e
  | failed m i ↦ none
  | gave_up ↦ none
]

unfoldable pub filter_of : Option Sfilter → Option Expr
filter_of none = none
filter_of (some sf) = parse_filter sf.filter

-- The arrays of filter.c and of the functions that call sql_expr.
module _ (p : Server) (sbuf stack : Memory) where
  -- db_conn calls it while `inprogress` is set, so that its queries do not connect again.
  abbrev pub where_inside : Expr → M p Bytes
  where_inside = where_of p (λ s. s) sbuf stack

  abbrev pub refilter : M p ℕ
  refilter = do
    oldfilter ← random_filter p (λ s. s)
    random_init p (λ s. s)
    random_setfilter p (λ s. s) where_inside oldfilter

  unfoldable pub db_connected : Db p → Db p
  db_connected s = (refilter s).0

  abbrev pub filter_sql : Expr → M p Bytes
  filter_sql = where_of p db_connected sbuf stack

  unfoldable pub db_init : M p Bool
  db_init = db_conn p db_connected

  abbrev pub apply_filter : Option Expr → M p ℕ
  apply_filter = random_setfilter p db_connected filter_sql

  -- From sfilter_get on.
  unfoldable pub load_filter_id : ℕ → M p ℕ
  load_filter_id id =
      let get = sfilter_get p db_connected id >>= λ sf. apply_filter (filter_of sf) in
      if is_minus_one id then apply_filter none else get

  unfoldable pub load_filter : Option Bytes → M p ℕ
  load_filter none = apply_filter none
  load_filter (some []) = apply_filter none
  load_filter (some (c ∷ s)) = sfilter_id p db_connected (c ∷ s) >>= load_filter_id

  -- From random_filter on, with the array that the text is printed into.
  unfoldable pub save_expr : Memory → ℕ → Option Expr → M p ℕ
  save_expr buf id none = pure 0
  save_expr buf id (some e) =
      sfilter_setfilter p db_connected id (c_string (expr_fmt e buf 0 4096).0.bytes)

  unfoldable pub save_filter_id : Memory → ℕ → M p ℕ
  save_filter_id buf id =
      let save = random_filter p db_connected >>= save_expr buf id in
      if is_minus_one id then pure 0 else save

  unfoldable pub save_filter : Memory → Option Bytes → M p ℕ
  save_filter buf none = pure 0
  save_filter buf (some []) = pure 0
  save_filter buf (some (c ∷ s)) = sfilter_id p db_connected (c ∷ s) >>= save_filter_id buf
