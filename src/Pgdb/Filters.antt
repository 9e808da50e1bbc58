-- ===== src/Pgdb/Filters.antt =====
-- pgdb/filter.c on the database: the query for the tags of some names, and the SQL that sql_expr leaves in an
-- array of 4096 bytes. What the arrays hold before is a parameter.
use dudld.Common.{ℕ, zero, suc, ◌+◌, Bytes, List, [], ◌∷◌, Option, none, some}
use dudld.Common.Memory.{Memory, store, c_string}
use dudld.ParseExpr.Syntax.{Expr}
use dudld.Sql.Filter.{sql_expr}
use dudld.Pgdb.Server.{Result, Server, Db, M, pure, raw, pgint}
use dudld.Pgdb.Shapes.{select}

module _ (p : Server) where
  -- The numbers in the rows from `tup` on.
  unfoldable pub ids_from : Result → ℕ → ℕ → List ℕ
  ids_from r zero tup = []
  ids_from r (suc n) tup = pgint p r tup 0 ∷ ids_from r n (tup + 1)

  module _ (opened_cb : Db p → Db p) where
    unfoldable pub tag_ids : Bytes → M p (Option (List ℕ))
    tag_ids sql = select p opened_cb none (raw sql ∷ []) (λ r. pure (some (ids_from r r.ntuples 0)))

    unfoldable pub where_of : Memory → Memory → Expr → M p Bytes
    where_of sbuf stack e s =
        let (t, r) = sql_expr tag_ids sbuf e (store 0 0 stack) 0 4096 s in (t, c_string r.0.bytes)
