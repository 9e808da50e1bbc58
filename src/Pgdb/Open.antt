-- ===== src/Pgdb/Open.antt =====
-- pgdb/dudldb.c and main.c: what runs while db_conn asks and the callback of db_init is called leaves the
-- connection open.
use dudld.Common.{
  ℕ, ◌+◌, ◌-◌, ◌≡◌, refl, ◌∙◌, Bool, true, false, ◌&&◌, Bytes, List, [], ◌∷◌, Option, none, some,
  if◌then◌else◌, ltb, length, take, map,
}
use dudld.Common.Memory.{Memory}
use dudld.Common.Writer.{Writer, skip}
use dudld.ParseExpr.Syntax.{
  Value, Values, list, nil, cons, ValTest, Expr, op_self, op_not, op_and, op_or,
}
use dudld.Sql.Asking.{Asking, just, ◌▹◌}
use dudld.Sql.Filter.{
  Func, f_tag, f_taglist, ask_names, strings_of, numbers_of, into_array, comma_fmt, quote,
  sql_tags2id, sql_taglist, run_func, find_format, sql_valtestfmt, SqlValtestfmt, sql_valtest,
  sql_expr,
}
use dudld.Pgdb.Server.{
  Result, Server, Db, M, pure, ◌>>=◌, ◌>>◌, Part, print_query, pq_exec, pq_clear, call,
}
use dudld.Pgdb.Connection.{buflenquery, send_again, check_connection, db_vquery, db_conn, db_query}
use dudld.Pgdb.Shapes.{select, command, tuples_of}
use dudld.Pgdb.Filters.{tag_ids, where_of}
use dudld.Pgdb.Random.{
  create_cache, random_init, random_filter, set_filter, fill_where, fill_cache, filter_set,
  filter_filled, random_setfilter,
}
use dudld.Pgdb.Startup.{db_connected, where_inside}

-- db_conn is in progress, and there is a connection.
pub record IsOpen {p : Server} (s : Db p) : Type 0 where
  pub inprogress : s.inprogress ≡ true
  pub dbcon : s.dbcon ≡ true

-- An action that leaves it so.
pub record Stays {p : Server} {A : Type 0} (m : M p A) : Type 0 where
  pub at : (s : Db p) → IsOpen s → IsOpen (m s).0

module _ {p : Server} where
  same_flags : {s t : Db p} → t.inprogress ≡ s.inprogress → t.dbcon ≡ s.dbcon → IsOpen s → IsOpen t
  same_flags i d h = record { inprogress = i ∙ h.inprogress; dbcon = d ∙ h.dbcon }

  Stays-pure : {A : Type 0} (a : A) → Stays {p = p} (pure a)
  Stays-pure a = record { at = λ s h. h }

  Stays-bind :
      {A B : Type 0} {m : M p A} {f : A → M p B}
      → Stays m
      → ((a : A) → Stays (f a))
      → Stays (m >>= f)
  unfolding ◌>>=◌
  Stays-bind h g = record { at = λ s c. (g _).at _ (h.at s c) }

  Stays-then : {A B : Type 0} {m : M p A} {n : M p B} → Stays m → Stays n → Stays (m >> n)
  unfolding ◌>>◌
  Stays-then h g = Stays-bind h (λ _. g)

  Stays-exec : (buf : Bytes) → Stays {p = p} (pq_exec buf)
  unfolding pq_exec
  Stays-exec buf = record { at = λ s h. executed s h (p.exec buf s.pg).0 (p.exec buf s.pg).1 }
    where
      executed :
          (s : Db p)
          → IsOpen s
          → (pg : p.S) (res : Option Result)
          → let t : Db p = record s { pg = pg; sent = buf ∷ s.sent } in
            let r : Db p × Option Result = elim res [
              | none ↦ (t, none)
              | some r ↦ (record t { results = s.results + 1 }, some r)
            ] in
            IsOpen r.0
      executed s h pg none = same_flags refl refl h
      executed s h pg (some r) = same_flags refl refl h

  pub Stays-clear : (res : Option Result) → Stays {p = p} (pq_clear res)
  unfolding pq_clear
  Stays-clear none = record { at = λ s h. h }
  Stays-clear (some r) = record { at = λ s h. same_flags refl refl h }

  by_test :
      {A : Type 0} (b : Bool) (x y : Db p × A)
      → IsOpen x.0
      → IsOpen y.0
      → IsOpen (if b then x else y).0
  by_test true x y h g = h
  by_test false x y h g = g

  -- db_conn that is in progress does nothing.
  Stays-db_conn : (opened_cb : Db p → Db p) → Stays (db_conn p opened_cb)
  unfolding db_conn
  Stays-db_conn opened_cb = record { at = λ s h. idle s.inprogress s _ h.inprogress h }
    where
      idle :
          (b : Bool) (s : Db p) (y : Db p × Bool)
          → b ≡ true
          → IsOpen s
          → IsOpen (if b then (s, false) else y).0
      idle true s y e h = h
      idle false s y e h = absurd (cc e)

  Stays-check :
      (connect : M p Bool) (buf : Bytes) (res : Option Result)
      → Stays connect
      → Stays (check_connection p connect buf res)
  unfolding check_connection send_again
  Stays-check connect buf res c = record {
    at = λ s h.
        by_test (s.dbcon && p.is_ok s.pg) (s, res) _ h
          ((Stays-then (Stays-clear res) (Stays-bind c again)).at s h);
  }
    where
      again :
          (failed : Bool) → Stays {p = p} (elim failed [ true ↦ pure none | false ↦ pq_exec buf ])
      again true = Stays-pure none
      again false = Stays-exec buf

  Stays-db_vquery :
      (connect : M p Bool) (q : List Part) → Stays connect → Stays (db_vquery p connect q)
  unfolding db_vquery
  Stays-db_vquery connect q c = record {
    at = λ s h.
        let buf = take (buflenquery - 1) (print_query q) in
        by_test (ltb buflenquery (length (print_query q))) (s, none) _ h
          (by_test s.dbcon _ _
            ((Stays-bind (Stays-exec buf) (λ res. Stays-check connect buf res c)).at s h)
            ((Stays-check connect buf none c).at s h));
  }

  pub Stays-query_inside : (q : List Part) → Stays (db_vquery p (pure false) q)
  Stays-query_inside q = Stays-db_vquery _ q (Stays-pure false)

module _ {p : Server} (opened_cb : Db p → Db p) where
  Stays-db_query : (q : List Part) → Stays (db_query p opened_cb q)
  unfolding db_query
  Stays-db_query q = Stays-db_vquery _ q (Stays-db_conn opened_cb)

  Stays-command : {A : Type 0} (a b : A) (q : List Part) → Stays (command p opened_cb a b q)
  unfolding command
  Stays-command a b q =
      Stays-bind (Stays-db_query q) (λ res. Stays-then (Stays-clear res) (Stays-pure _))

  Stays-select-pure :
      {A : Type 0} (a : A) (q : List Part) (f : Result → A)
      → Stays (select p opened_cb a q (λ r. pure (f r)))
  unfolding select
  Stays-select-pure {A} a q f = Stays-bind (Stays-db_query q) (λ res. answered res (tuples_of res))
    where
      answered :
          (res o : Option Result)
          → Stays {p = p} {A = A} (elim o [
            | none ↦ pq_clear res >> pure a
            | some r ↦ pure (f r) >>= λ x. pq_clear res >> pure x
          ])
      answered res none = Stays-then (Stays-clear res) (Stays-pure a)
      answered res (some r) =
          Stays-bind (Stays-pure (f r)) (λ x. Stays-then (Stays-clear res) (Stays-pure x))

  -- Printing that leaves it so.
  record Asks (a : Asking (Db p)) : Type 0 where
    at : (m : Memory) (i len : ℕ) (s : Db p) → IsOpen s → IsOpen (a m i len s).0

  Asks-just : (w : Writer) → Asks (just w)
  Asks-just w = record { at = λ m i len s h. h }

  Asks-then : (a b : Asking (Db p)) → Asks a → Asks b → Asks (a ▹ b)
  unfolding ◌▹◌
  Asks-then a b h g = record {
    at = λ m i len s c.
        let d = h.at m i len s c in by_test (ltb len (a m i len s).1.1) _ _ d (g.at _ _ _ _ d);
  }

  module _ (sbuf : Memory) where
    Stays-sql_tags2id : (vs : Values) → Stays (sql_tags2id (tag_ids p opened_cb) sbuf vs)
    unfolding sql_tags2id ask_names tag_ids
    Stays-sql_tags2id vs = record { at = λ s h. named (strings_of vs) s h }
      where
        asked :
            (o : Option Bytes) (s : Db p)
            → IsOpen s
            → IsOpen (ask_names (tag_ids p opened_cb) sbuf (numbers_of vs) o s).0
        asked none s h = h
        asked (some x) s h = (Stays-select-pure none _ _).at s h

        named :
            (xs : List Bytes) (s : Db p)
            → IsOpen s
            → let r : Db p × Option (List ℕ) = elim xs [
              | [] ↦ (s, some (numbers_of vs))
              | x ∷ ys ↦
                  ask_names
                    (tag_ids p opened_cb)
                    sbuf
                    (numbers_of vs)
                    (into_array sbuf (comma_fmt (map quote (x ∷ ys))))
                    s
            ] in
              IsOpen r.0
        named [] s h = h
        named (x ∷ xs) s h = asked _ s h

    Asks-sql_taglist : (vs : Values) → Asks (sql_taglist (tag_ids p opened_cb) sbuf vs)
    unfolding sql_taglist
    Asks-sql_taglist vs = record { at = λ m i len s h. (Stays-sql_tags2id vs).at s h }

    Asks-run_func :
        (f : Func) (t : ValTest) (v : Value) (row : Option Bytes)
        → Asks (run_func (tag_ids p opened_cb) sbuf f t v row)
    unfolding run_func
    Asks-run_func f_tag t v row = Asks-sql_taglist (cons v nil)
    Asks-run_func f_taglist t (list vs) row = Asks-sql_taglist vs
    Asks-run_func f t v row = Asks-just _

    Asks-sql_valtest : (t : ValTest) → Asks (sql_valtest (tag_ids p opened_cb) sbuf t)
    unfolding sql_valtest
    Asks-sql_valtest t = with_format (find_format t sql_valtestfmt)
      where
        with_format :
            (o : Option SqlValtestfmt)
            → Asks (elim o [
              | none ↦ just skip
              | some f ↦ run_func (tag_ids p opened_cb) sbuf f.func t t.val f.row
            ])
        with_format none = Asks-just skip
        with_format (some f) = Asks-run_func f.func t t.val f.row

    Asks-sql_expr : (e : Expr) → Asks (sql_expr (tag_ids p opened_cb) sbuf e)
    unfolding sql_expr
    Asks-sql_expr (op_self t) = Asks-sql_valtest t
    Asks-sql_expr (op_not e) =
        Asks-then _ _ (Asks-just _) (Asks-then _ _ (Asks-sql_expr e) (Asks-just _))
    Asks-sql_expr (op_and a b) = Asks-then _ _ (Asks-just _) (
        Asks-then _ _ (Asks-sql_expr a)
          (Asks-then _ _ (Asks-just _) (Asks-then _ _ (Asks-sql_expr b) (Asks-just _))))
    Asks-sql_expr (op_or a b) = Asks-then _ _ (Asks-just _) (
        Asks-then _ _ (Asks-sql_expr a)
          (Asks-then _ _ (Asks-just _) (Asks-then _ _ (Asks-sql_expr b) (Asks-just _))))

    Stays-where_of : (stack : Memory) (e : Expr) → Stays (where_of p opened_cb sbuf stack e)
    unfolding where_of
    Stays-where_of stack e = record { at = λ s h. (Asks-sql_expr e).at _ _ _ s h }

  module _ (sql_expr : Expr → M p Bytes) (stays : (e : Expr) → Stays (sql_expr e)) where
    Stays-fill_where : (s : Bytes) → Stays (fill_where p opened_cb sql_expr s)
    unfolding fill_where
    Stays-fill_where [] = Stays-command true false _
    Stays-fill_where (c ∷ s) = Stays-command true false _

    Stays-fill_cache : (o : Option Expr) → Stays (fill_cache p opened_cb sql_expr o)
    unfolding fill_cache
    Stays-fill_cache none = Stays-fill_where []
    Stays-fill_cache (some e) = Stays-bind (stays e) Stays-fill_where

    Stays-set_filter : (o : Option Expr) → Stays (set_filter p opened_cb o)
    unfolding set_filter
    Stays-set_filter o = record { at = λ s h. same_flags refl refl h }

    Stays-filter_set : Stays (filter_set p opened_cb sql_expr)
    unfolding filter_set call
    Stays-filter_set =
        Stays-then (record { at = λ s h. same_flags refl refl h })
          (Stays-bind (Stays-db_query _) (λ res. Stays-then (Stays-clear res) (Stays-pure 0)))

    Stays-filter_filled :
        (o : Option Expr) (failed : Bool) → Stays (filter_filled p opened_cb sql_expr o failed)
    unfolding filter_filled
    Stays-filter_filled o false = Stays-then (Stays-set_filter o) Stays-filter_set
    Stays-filter_filled none true = Stays-pure 1
    Stays-filter_filled (some e) true = Stays-bind (Stays-fill_cache none) again
      where
        again :
            (failed : Bool)
            → Stays {p = p} {A = ℕ}
                (elim failed [ true ↦ pure 1 | false ↦ filter_set p opened_cb sql_expr ])
        again true = Stays-pure 1
        again false = Stays-filter_set

    Stays-create_cache : Stays (create_cache p opened_cb)
    unfolding create_cache
    Stays-create_cache = Stays-command true false _

    Stays-random_setfilter : (o : Option Expr) → Stays (random_setfilter p opened_cb sql_expr o)
    unfolding random_setfilter
    Stays-random_setfilter o = Stays-bind (Stays-db_query _) (λ res.
        Stays-then (Stays-clear res)
          (Stays-then (Stays-set_filter none) (Stays-bind Stays-create_cache filled)))
      where
        filled :
            (failed : Bool)
            → Stays {p = p} {A = ℕ} (elim failed [
              | true ↦ pure 1
              | false ↦ fill_cache p opened_cb sql_expr o >>= filter_filled p opened_cb sql_expr o
            ])
        filled true = Stays-pure 1
        filled false = Stays-bind (Stays-fill_cache o) (Stays-filter_filled o)

-- The callback that main.c gives to db_init leaves it so.
pub db_connected-IsOpen :
    {p : Server} (sbuf stack : Memory) (s : Db p) → IsOpen s → IsOpen (db_connected p sbuf stack s)
unfolding db_connected random_init random_filter
db_connected-IsOpen {p} sbuf stack s h =
    let same : Db p → Db p = λ t. t in
    let w = where_inside p sbuf stack in
    let inside = λ (e : Expr). Stays-where_of same sbuf stack e in
    (Stays-bind (record { at = λ t c. c })
        (λ o.
          Stays-then (Stays-create_cache same w inside)
            (Stays-random_setfilter same w inside o))).at
      s h
