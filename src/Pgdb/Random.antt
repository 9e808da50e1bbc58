-- ===== src/Pgdb/Random.antt =====
-- pgdb/random.c: the random choice, and pgdb/history.c: what was played. `sql_expr` is as in Tracks.
use dudld.Common.{
  ℕ, ◌+◌, ◌-◌, ◌/◌, ◌^◌, ltb, if◌then◌else◌, Bool, true, false, ◌||◌, Bytes, List, [], ◌∷◌, Option,
  none, some, codes,
}
use dudld.Commands.Session.{is_negative}
use dudld.Pgdb.Server.{
  Result, Server, Db, M, pure, ◌>>=◌, ◌>>◌, Part, sql, int, raw, pq_clear, pgint, call,
  random_filtered,
}
use dudld.Pgdb.Connection.{db_query}
use dudld.Pgdb.Shapes.{minus_one, select, command, iterate}
use dudld.ParseExpr.Syntax.{Expr}
use dudld.Format.Records.{Track, History, User}
use dudld.Pgdb.Rows.{Stored}
use dudld.Pgdb.Users.{user_get}
use dudld.Pgdb.Tracks.{iterate_tracks, track_get, track_row}

abbrev pub rand_max : ℕ
rand_max = 2 ^ 31 - 1

-- |a + b - RAND_MAX|
unfoldable pub folded : ℕ → ℕ → ℕ
folded a b = if ltb (a + b) rand_max then rand_max - (a + b) else a + b - rand_max

-- How many of the tracks that were not played for the longest time the choice is made from.
unfoldable pub top : ℕ → ℕ
top n = if is_negative n || ltb (n / 3) 1 then 1 else n / 3

-- The query of history_add.
unfoldable pub added_query : ℕ → ℕ → ℕ → Bool → List Part
added_query track uid now completed =
    sql (codes "INSERT INTO mserv_hist(file_id, user_id, added, completed) VALUES( ")
    ∷ int track
    ∷ sql (codes ", ")
    ∷ int uid
    ∷ sql (codes ", unix2time(")
    ∷ int now
    ∷ sql (codes "), ")
    ∷ raw (if completed then codes "true" else codes "false")
    ∷ sql (codes " )")
    ∷ []

module _ (p : Server) (opened_cb : Db p → Db p) where
  -- True is an answer that is not 0.
  unfoldable pub create_cache : M p Bool
  create_cache =
      command p opened_cb true false (
        sql (codes "CREATE TEMP TABLE juke_cache (id INTEGER,lplay INTEGER,filename VARCHAR)") ∷ [])

  unfoldable pub random_init : M p Bool
  random_init = create_cache

  unfoldable pub set_filter : Option Expr → M p (Unit {0})
  set_filter e s = (record s { filter = e }, tt)

  unfoldable pub random_filter : M p (Option Expr)
  random_filter s = (s, s.filter)

  unfoldable pub random_cache_update : ℕ → ℕ → M p ℕ
  random_cache_update id lplay = command p opened_cb minus_one 0 (
      sql (codes "UPDATE juke_cache SET lplay = ")
      ∷ int lplay
      ∷ sql (codes " WHERE id = ")
      ∷ int id
      ∷ [])

  unfoldable pub random_filterstat : M p ℕ
  random_filterstat =
      select p opened_cb minus_one (sql (codes "SELECT count(*) FROM juke_cache") ∷ [])
        (λ r. pure (pgint p r 0 0))

  unfoldable pub random_top : ℕ → M p (List Track)
  random_top num = iterate_tracks p opened_cb (
      sql (codes "SELECT t.*, c.lplay FROM ( SELECT * FROM juke_cache ORDER by lplay LIMIT ")
      ∷ int num
      ∷ sql (
          codes
            " ) AS c INNER JOIN mserv_track t ON t.id = c.id ORDER BY c.lplay, LOWER(album_artist_name), LOWER(album_name), album_pos")
      ∷ [])

  -- The two calls of random.
  unfoldable pub two_random : M p (ℕ × ℕ)
  two_random s =
      let (pg, a) = p.random s.pg in let (pg', b) = p.random pg in (record s { pg = pg' }, (a, b))

  -- `x / RAND_MAX * n` in double precision, cut to an int, is the parameter `scaled`.
  unfoldable pub pick : (ℕ → ℕ → ℕ) → Result → M p (Option ℕ)
  pick scaled r =
      two_random >>= λ ab. pure (some (pgint p r (scaled (folded ab.0 ab.1) r.ntuples) 0))

  unfoldable pub random_fetch : (ℕ → ℕ → ℕ) → M p (Option Stored)
  random_fetch scaled = do
    n ← random_filterstat
    id ←
        select p opened_cb none
          (sql (codes "SELECT id FROM juke_cache ORDER BY lplay LIMIT ") ∷ int (top n) ∷ [])
          (pick scaled)
    elim id [ none ↦ pure none | some i ↦ track_get p opened_cb i ]

  unfoldable pub history_add : ℕ → ℕ → Bool → M p ℕ
  history_add track uid completed = do
    now ← λ s. let (pg, t) = p.time s.pg in (record s { pg = pg }, t)
    failed ← command p opened_cb true false (added_query track uid now completed)
    elim failed [ true ↦ pure 1 | false ↦ random_cache_update track now >> pure 0 ]

  -- A row with its user, who is asked for.
  unfoldable pub history_row : Result → ℕ → ℕ → ℕ → Option User → M p (Option History)
  history_row r tup f g none = pure none
  history_row r tup f g (some u) = track_row p opened_cb r tup >>= λ o. pure (elim o [
    | none ↦ none
    | some t ↦ some (record { played = pgint p r tup f; user = some u; track = t })
  ])

  unfoldable pub history_convert : Result → ℕ → M p (Option History)
  history_convert r tup =
      if ltb tup r.ntuples
      then elim (r.fnumber (codes "played")) [
        | none ↦ pure none
        | some f ↦ elim (r.fnumber (codes "user_id")) [
          | none ↦ pure none
          | some g ↦ user_get p opened_cb (pgint p r tup g) >>= history_row r tup f g
        ]
      ]
      else pure none

  unfoldable pub history_list : ℕ → M p (List History)
  history_list num = iterate p opened_cb history_convert (
      sql (
        codes
          "SELECT t.*,time2unix(h.added) AS played,h.user_id FROM ( SELECT * FROM mserv_hist ORDER BY added DESC LIMIT ")
      ∷ int num
      ∷ sql (codes " ) AS h INNER JOIN mserv_track t ON t.id = h.file_id ORDER BY h.added ")
      ∷ [])

  unfoldable pub history_tracklist : ℕ → ℕ → M p (List History)
  history_tracklist trackid num = iterate p opened_cb history_convert (
      sql (
        codes
          "SELECT t.*,time2unix(h.added) AS played,h.user_id FROM ( SELECT * FROM mserv_hist WHERE file_id = ")
      ∷ int trackid
      ∷ sql (codes " ORDER BY added DESC LIMIT ")
      ∷ int num
      ∷ sql (codes " ) AS h INNER JOIN mserv_track t ON t.id = h.file_id ORDER BY h.added DESC ")
      ∷ [])

  module _ (sql_expr : Expr → M p Bytes) where
    -- True is an answer that is not 0.
    unfoldable pub fill_where : Bytes → M p Bool
    fill_where [] = command p opened_cb true false (
        sql (codes "INSERT INTO juke_cache SELECT id, lplay, filename FROM mserv_track t ")
        ∷ raw []
        ∷ raw []
        ∷ [])
    fill_where (c ∷ s) = command p opened_cb true false (
        sql (codes "INSERT INTO juke_cache SELECT id, lplay, filename FROM mserv_track t ")
        ∷ raw (codes "WHERE ")
        ∷ raw (c ∷ s)
        ∷ [])

    unfoldable pub fill_cache : Option Expr → M p Bool
    fill_cache none = fill_where []
    fill_cache (some e) = sql_expr e >>= fill_where

    -- From random_func_filter on, where the filter was set.
    unfoldable pub filter_set : M p ℕ
    filter_set = do
      call random_filtered
      res ← db_query p opened_cb (sql (codes "CREATE INDEX juke_cache_idx ON juke_cache(id)") ∷ [])
      pq_clear res
      pure 0

    -- Behind the first fill_cache, with whether that failed.
    unfoldable pub filter_filled : Option Expr → Bool → M p ℕ
    filter_filled filt false = set_filter filt >> filter_set
    filter_filled none true = pure 1
    filter_filled (some e) true = do
      failed ← fill_cache none
      elim failed [ true ↦ pure 1 | false ↦ filter_set ]

    unfoldable pub random_setfilter : Option Expr → M p ℕ
    random_setfilter filt = do
      res ← db_query p opened_cb (sql (codes "DROP TABLE juke_cache") ∷ [])
      pq_clear res
      set_filter none
      failed ← create_cache
      elim failed [ true ↦ pure 1 | false ↦ fill_cache filt >>= filter_filled filt ]
