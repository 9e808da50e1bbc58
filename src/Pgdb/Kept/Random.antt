-- ===== src/Pgdb/Kept/Random.antt =====
-- pgdb/random.c and pgdb/history.c send statements and clear their results.
use dudld.Common.{ℕ, ◌+◌, refl, Bool, true, false, some, none, Bytes, Option, codes, [], ◌∷◌, ltb}
use dudld.Format.Records.{User, History}
use dudld.Pgdb.Server.{Result, Server, Db, M, ◌>>=◌, ◌>>◌, pure}
use dudld.Sql.Reading.{outside, read_text, Reads}
use dudld.Pgdb.Statement.{IsQuery, query_place, raw_place}
use dudld.Pgdb.Runs.{
  IsClean, Keeps, with_result, Runs-pure, Runs-bind, Runs-then, Runs-if, Runs-clear, Keeps-call,
  Keeps-bind, Runs-db_query,
}
use dudld.Pgdb.Kept.{Keeps-clear, Keeps-select, Keeps-select-pure, Keeps-command, Keeps-iterate}
use dudld.ParseExpr.Syntax.{Expr}
use dudld.Pgdb.Server.{pgint}
use dudld.Pgdb.Rows.{Stored}
use dudld.Pgdb.Users.{user_get}
use dudld.Pgdb.Tracks.{track_get, track_row, iterate_tracks}
use dudld.Pgdb.Random.{
  create_cache, fill_cache, fill_where, filter_filled, filter_set, history_convert, added_query,
  history_add, history_list, history_tracklist, pick, random_cache_update, random_fetch,
  random_filterstat, random_setfilter, random_top, set_filter, two_random, history_row,
}
use dudld.Pgdb.Kept.Users.{Keeps-user_get}
use dudld.Pgdb.Kept.Tracks.{Keeps-track_get}

module _ {p : Server} (opened_cb : Db p → Db p)
    (opened : (k : ℕ) (s : Db p) → IsClean k s → IsClean k (opened_cb s)) (k : ℕ) where
  pub Keeps-create_cache : Keeps k (create_cache p opened_cb)
  unfolding create_cache query_place
  Keeps-create_cache = Keeps-command opened_cb opened k _ _ _ (outside, refl)

  pub Keeps-random_cache_update :
      (id : ℕ) (lplay : ℕ) → Keeps k (random_cache_update p opened_cb id lplay)
  unfolding random_cache_update query_place
  Keeps-random_cache_update id lplay = Keeps-command opened_cb opened k _ _ _ (outside, refl)

  pub Keeps-random_filterstat : Keeps k (random_filterstat p opened_cb)
  unfolding random_filterstat query_place
  Keeps-random_filterstat = Keeps-select-pure opened_cb opened k _ _ _ (outside, refl)

  pub Keeps-random_top : (num : ℕ) → Keeps k (random_top p opened_cb num)
  unfolding random_top iterate_tracks track_row query_place
  Keeps-random_top num =
      Keeps-iterate opened_cb opened k _ _ (outside, refl) (λ r tup. Runs-pure _ _)

  Keeps-pick : (scaled : ℕ → ℕ → ℕ) (r : Result) → Keeps k (pick p opened_cb scaled r)
  unfolding pick two_random ◌>>=◌
  Keeps-pick scaled r = record { at = λ s h. record { results = h.results; texts = h.texts } }

  history_track :
      (r : Result) (tup f g : ℕ) (u : Option User) → Keeps k (history_row p opened_cb r tup f g u)
  unfolding history_row track_row
  history_track r tup f g none = Runs-pure k none
  history_track r tup f g (some u) = Keeps-bind (Runs-pure k _) (λ o. Runs-pure k _)

  Keeps-history_convert : (r : Result) (tup : ℕ) → Keeps k (history_convert p opened_cb r tup)
  unfolding history_convert
  Keeps-history_convert r tup =
      Runs-if (ltb tup r.ntuples)
        (by_fields (r.fnumber (codes "played")) (r.fnumber (codes "user_id"))) (Runs-pure k none)
    where
      by_fields :
          (a b : Option ℕ)
          → Keeps {p = p} {A = Option History} k (elim a [
            | none ↦ pure none
            | some f ↦ elim b [
              | none ↦ pure none
              | some g ↦
                  user_get p opened_cb (pgint p r tup g) >>= history_row p opened_cb r tup f g
            ]
          ])
      by_fields none b = Runs-pure k none
      by_fields (some f) none = Runs-pure k none
      by_fields (some f) (some g) =
          Keeps-bind (Keeps-user_get opened_cb opened k _) (history_track r tup f g)

  pub Keeps-set_filter : (e : Option Expr) → Keeps k (set_filter p opened_cb e)
  unfolding set_filter
  Keeps-set_filter e = record { at = λ s h. record { results = h.results; texts = h.texts } }

module _ {p : Server} (opened_cb : Db p → Db p)
    (opened : (k : ℕ) (s : Db p) → IsClean k s → IsClean k (opened_cb s)) (k : ℕ) where
  pub Keeps-random_fetch : (scaled : ℕ → ℕ → ℕ) → Keeps k (random_fetch p opened_cb scaled)
  unfolding random_fetch query_place
  Keeps-random_fetch scaled = Keeps-bind (Keeps-random_filterstat opened_cb opened k) (λ n.
      Keeps-bind
        (Keeps-select opened_cb opened k none _ _ (outside, refl)
          (Keeps-pick opened_cb opened (k + 1) scaled))
        picked)
    where
      picked :
          (o : Option ℕ)
          → Keeps {p = p} {A = Option Stored} k
              (elim o [ none ↦ pure none | some i ↦ track_get p opened_cb i ])
      picked none = Runs-pure k none
      picked (some i) = Keeps-track_get opened_cb opened k i

  pub Keeps-history_list : (num : ℕ) → Keeps k (history_list p opened_cb num)
  unfolding history_list query_place
  Keeps-history_list num =
      Keeps-iterate opened_cb opened k _ _ (outside, refl)
        (Keeps-history_convert opened_cb opened (k + 1))

  pub Keeps-history_tracklist : (id num : ℕ) → Keeps k (history_tracklist p opened_cb id num)
  unfolding history_tracklist query_place
  Keeps-history_tracklist id num =
      Keeps-iterate opened_cb opened k _ _ (outside, refl)
        (Keeps-history_convert opened_cb opened (k + 1))

  Keeps-clock :
      Keeps {p = p} {A = ℕ} k (λ s. let (pg, t) = p.time s.pg in (record s { pg = pg }, t))
  Keeps-clock = record { at = λ s h. record { results = h.results; texts = h.texts } }

  added_query-IsQuery :
      (track uid now : ℕ) (completed : Bool) → IsQuery (added_query track uid now completed)
  unfolding added_query query_place
  added_query-IsQuery track uid now true = (outside, refl)
  added_query-IsQuery track uid now false = (outside, refl)

  pub Keeps-history_add :
      (track uid : ℕ) (completed : Bool) → Keeps k (history_add p opened_cb track uid completed)
  unfolding history_add
  Keeps-history_add track uid completed = Keeps-bind Keeps-clock (λ now.
      Keeps-bind
        (Keeps-command opened_cb opened k true false _
          (added_query-IsQuery track uid now completed))
        (cached now))
    where
      cached :
          (now : ℕ) (failed : Bool)
          → Keeps {p = p} {A = ℕ} k (elim failed [
            | true ↦ pure 1
            | false ↦ random_cache_update p opened_cb track now >> pure 0
          ])
      cached now true = Runs-pure k 1
      cached now false =
          Runs-then k (Keeps-random_cache_update opened_cb opened k track now) (Runs-pure k 0)

  -- The SQL of a filter is a part of a statement.
  module _ (sql_expr : Expr → M p Bytes)
      (written : (e : Expr) (s : Db p)
        → IsClean k s
        → IsClean k (sql_expr e s).0 × Reads outside (sql_expr e s).1) where
    Keeps-fill_where : (s : Bytes) → Reads outside s → Keeps k (fill_where p opened_cb sql_expr s)
    unfolding fill_where query_place
    Keeps-fill_where [] h = Keeps-command opened_cb opened k _ _ _ (outside, refl)
    Keeps-fill_where (c ∷ s) (q, h) =
        Keeps-command opened_cb opened k _ _ _ (q, raw_place outside q (c ∷ s) [] h refl)

    Keeps-fill_cache : (o : Option Expr) → Keeps k (fill_cache p opened_cb sql_expr o)
    unfolding fill_cache ◌>>=◌
    Keeps-fill_cache none = Keeps-fill_where [] (outside, unfold read_text in refl)
    Keeps-fill_cache (some e) = record {
      at = λ s h. (Keeps-fill_where _ (written e s h).1).at _ (written e s h).0;
    }

    Keeps-filter_set : Keeps k (filter_set p opened_cb sql_expr)
    unfolding filter_set query_place
    Keeps-filter_set = Runs-then k (Keeps-call k _) (
        Runs-bind (with_result k) (Runs-db_query opened_cb opened k _ (outside, refl))
          (λ res. Keeps-clear k res 0))

    Keeps-filter_filled :
        (o : Option Expr) (failed : Bool) → Keeps k (filter_filled p opened_cb sql_expr o failed)
    unfolding filter_filled
    Keeps-filter_filled o false =
        Runs-then k (Keeps-set_filter opened_cb opened k o) Keeps-filter_set
    Keeps-filter_filled none true = Runs-pure k 1
    Keeps-filter_filled (some e) true = Keeps-bind (Keeps-fill_cache none) again
      where
        again :
            (failed : Bool)
            → Keeps {p = p} {A = ℕ} k
                (elim failed [ true ↦ pure 1 | false ↦ filter_set p opened_cb sql_expr ])
        again true = Runs-pure k 1
        again false = Keeps-filter_set

    pub Keeps-random_setfilter :
        (o : Option Expr) → Keeps k (random_setfilter p opened_cb sql_expr o)
    unfolding random_setfilter query_place
    Keeps-random_setfilter o =
        Runs-bind (with_result k) (Runs-db_query opened_cb opened k _ (outside, refl)) (λ res.
          Runs-then k (Runs-clear k res) (
            Runs-then k (Keeps-set_filter opened_cb opened k none)
              (Keeps-bind (Keeps-create_cache opened_cb opened k) filled)))
      where
        filled :
            (failed : Bool)
            → Keeps {p = p} {A = ℕ} k (elim failed [
              | true ↦ pure 1
              | false ↦ fill_cache p opened_cb sql_expr o >>= filter_filled p opened_cb sql_expr o
            ])
        filled true = Runs-pure k 1
        filled false = Keeps-bind (Keeps-fill_cache o) (Keeps-filter_filled o)
