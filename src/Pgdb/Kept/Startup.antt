-- ===== src/Pgdb/Kept/Startup.antt =====
-- db_init, load_filter and save_filter of main.c send statements and clear their results.
use dudld.Common.{ℕ, Bytes, [], ◌∷◌, Option, none, some}
use dudld.Common.Memory.{Memory, IsIntact}
use dudld.ParseExpr.Syntax.{Expr}
use dudld.Commands.Session.{is_minus_one}
use dudld.Sql.Filter.{sql_len}
use dudld.Sql.Reading.{outside, Reads}
use dudld.Pgdb.Server.{Server, Db}
use dudld.Pgdb.Random.{random_filter, random_init}
use dudld.Pgdb.Startup.{
  db_connected, filter_sql, apply_filter, db_init, load_filter, load_filter_id, filter_of,
  save_filter, save_filter_id, save_expr,
}
use dudld.Pgdb.Runs.{IsClean, Keeps, Runs-pure, Keeps-bind, Runs-then, Runs-if, Keeps-db_conn}
use dudld.Pgdb.Kept.Random.{Keeps-create_cache, Keeps-random_setfilter}
use dudld.Pgdb.Kept.Filters.{where_of-Reads}
use dudld.Pgdb.Kept.Tags.{Keeps-sfilter_id, Keeps-sfilter_get, Keeps-sfilter_setfilter}

module _ {p : Server} (opened_cb : Db p → Db p) (k : ℕ) where
  pub Keeps-random_filter : Keeps k (random_filter p opened_cb)
  unfolding random_filter
  Keeps-random_filter = record { at = λ s h. h }

module _ {p : Server} (sbuf stack : Memory) (isbuf : IsIntact sql_len sbuf)
    (istack : IsIntact 4096 stack) where
  pub db_connected-IsClean :
      (k : ℕ) (s : Db p) → IsClean k s → IsClean k (db_connected p sbuf stack s)
  unfolding db_connected random_init
  db_connected-IsClean k s h =
      (Keeps-bind (Keeps-random_filter (λ t. t) k) (λ o.
          Runs-then k (Keeps-create_cache (λ t. t) (λ j t c. c) k) (
            Keeps-random_setfilter (λ t. t) (λ j t c. c) k _
              (where_of-Reads (λ t. t) (λ j t c. c) k sbuf isbuf stack istack) o))).at
        s h

  pub filter_sql-Reads :
      (k : ℕ) (e : Expr) (s : Db p)
      → IsClean k s
      → IsClean k (filter_sql p sbuf stack e s).0 × Reads outside (filter_sql p sbuf stack e s).1
  filter_sql-Reads k e s h =
      where_of-Reads (db_connected p sbuf stack) db_connected-IsClean k sbuf isbuf stack istack e s
        h

  pub Keeps-db_init : (k : ℕ) → Keeps k (db_init p sbuf stack)
  unfolding db_init
  Keeps-db_init k = Keeps-db_conn (db_connected p sbuf stack) db_connected-IsClean k

  module _ (k : ℕ) where
    Keeps-apply : (o : Option Expr) → Keeps k (apply_filter p sbuf stack o)
    Keeps-apply o =
        Keeps-random_setfilter (db_connected p sbuf stack) db_connected-IsClean k _
          (filter_sql-Reads k) o

    Keeps-load_filter_id : (id : ℕ) → Keeps k (load_filter_id p sbuf stack id)
    unfolding load_filter_id
    Keeps-load_filter_id id = Runs-if (is_minus_one id) (Keeps-apply none) (
        Keeps-bind (Keeps-sfilter_get (db_connected p sbuf stack) db_connected-IsClean k id)
          (λ sf. Keeps-apply (filter_of sf)))

    pub Keeps-load_filter : (opt : Option Bytes) → Keeps k (load_filter p sbuf stack opt)
    unfolding load_filter
    Keeps-load_filter none = Keeps-apply none
    Keeps-load_filter (some []) = Keeps-apply none
    Keeps-load_filter (some (c ∷ s)) =
        Keeps-bind (Keeps-sfilter_id (db_connected p sbuf stack) db_connected-IsClean k (c ∷ s))
          Keeps-load_filter_id

    Keeps-save_expr :
        (buf : Memory) (id : ℕ) (o : Option Expr) → Keeps k (save_expr p sbuf stack buf id o)
    unfolding save_expr
    Keeps-save_expr buf id none = Runs-pure k 0
    Keeps-save_expr buf id (some e) =
        Keeps-sfilter_setfilter (db_connected p sbuf stack) db_connected-IsClean k id _

    Keeps-save_filter_id : (buf : Memory) (id : ℕ) → Keeps k (save_filter_id p sbuf stack buf id)
    unfolding save_filter_id
    Keeps-save_filter_id buf id =
        Runs-if (is_minus_one id) (Runs-pure k 0)
          (Keeps-bind (Keeps-random_filter (db_connected p sbuf stack) k) (Keeps-save_expr buf id))

    pub Keeps-save_filter :
        (buf : Memory) (opt : Option Bytes) → Keeps k (save_filter p sbuf stack buf opt)
    unfolding save_filter
    Keeps-save_filter buf none = Runs-pure k 0
    Keeps-save_filter buf (some []) = Runs-pure k 0
    Keeps-save_filter buf (some (c ∷ s)) =
        Keeps-bind (Keeps-sfilter_id (db_connected p sbuf stack) db_connected-IsClean k (c ∷ s))
          (Keeps-save_filter_id buf)
