-- ===== src/Pgdb/Tracks.antt =====
-- pgdb/track.c: the tracks. The text that sql_expr leaves in `where`, an array of 4096 bytes, with the
-- queries that it sends, is a parameter here; Sql is about it.
use dudld.Common.{
  ℕ, ◌-◌, ltb, if◌then◌else◌, Bool, true, false, Bytes, List, [], ◌∷◌, ◌++◌, Option, none, some,
  codes,
}
use dudld.Pgdb.Server.{Result, Server, Db, M, pure, ◌>>=◌, Part, sql, int, escaped, raw, pgint}
use dudld.Pgdb.Shapes.{minus_one, select, command, iterate}
use dudld.Common.{take}
use dudld.ParseExpr.Syntax.{Expr}
use dudld.Format.Records.{Track}
use dudld.Pgdb.Rows.{Stored, track_convert}

-- MAXPATHLEN
abbrev maxpathlen : ℕ
maxpathlen = 4096

unfoldable pub track_mkpath : Server → Stored → Bytes
track_mkpath p t = take (maxpathlen - 1) (p.opt_path_tracks ++ (b'/' ∷ t.fname))

module _ (p : Server) (opened_cb : Db p → Db p) where
  -- A row that makes a track, with what is sent of it.
  unfoldable pub track_row : Result → ℕ → M p (Option Track)
  track_row r tup = pure (elim (track_convert p r tup) [ none ↦ none | some t ↦ some t.track ])

  unfoldable pub iterate_tracks : List Part → M p (List Track)
  iterate_tracks = iterate p opened_cb track_row

  unfoldable pub track_get : ℕ → M p (Option Stored)
  track_get id =
      select p opened_cb none (sql (codes "SELECT * FROM mserv_track WHERE id = ") ∷ int id ∷ [])
        (λ r. pure (track_convert p r 0))

  unfoldable pub track_setname : ℕ → Bytes → M p ℕ
  track_setname trackid title = command p opened_cb minus_one 0 (
      sql (codes "UPDATE stor_file SET title = '")
      ∷ escaped title
      ∷ sql (codes "' WHERE id = ")
      ∷ int trackid
      ∷ [])

  unfoldable pub track_setartist : ℕ → ℕ → M p ℕ
  track_setartist trackid artistid = command p opened_cb minus_one 0 (
      sql (codes "UPDATE stor_file SET artist_id = ")
      ∷ int artistid
      ∷ sql (codes " WHERE id = ")
      ∷ int trackid
      ∷ [])

  -- The column `id` of the first row.
  unfoldable pub first_id : Result → ℕ
  first_id r =
      if ltb 0 r.ntuples
      then elim (r.fnumber (codes "id")) [ none ↦ minus_one | some f ↦ pgint p r 0 f ]
      else minus_one

  unfoldable pub track_id : ℕ → ℕ → M p ℕ
  track_id album_id num =
      select p opened_cb minus_one
        (sql (codes "SELECT id FROM stor_file WHERE album_id = ")
          ∷ int album_id
          ∷ sql (codes " AND album_pos = ")
          ∷ int num
          ∷ [])
        (λ r. pure (first_id r))

  unfoldable pub tracks_albumid : ℕ → M p (List Track)
  tracks_albumid albumid = iterate_tracks (
      sql (codes "SELECT * FROM mserv_track WHERE  album_id = ")
      ∷ int albumid
      ∷ sql (codes " ORDER BY album_pos")
      ∷ [])

  unfoldable pub tracks_artistid : ℕ → M p (List Track)
  tracks_artistid artistid = iterate_tracks (
      sql (codes "SELECT * FROM mserv_track WHERE artist_id = ")
      ∷ int artistid
      ∷ sql (codes " ORDER BY LOWER(album_name), album_pos")
      ∷ [])

  unfoldable pub tracks_search : Bytes → M p (List Track)
  tracks_search substr = iterate_tracks (
      sql (codes "SELECT * FROM mserv_track WHERE LOWER(title) LIKE LOWER('%")
      ∷ escaped substr
      ∷ sql (codes "%') ORDER BY LOWER(album_artist_name), LOWER(album_name), album_pos")
      ∷ [])

  -- With a text for `where`.
  unfoldable pub tracks_where : Bytes → M p (List Track)
  tracks_where [] = pure []
  tracks_where (c ∷ s) = iterate_tracks (
      sql (codes "SELECT * FROM mserv_track t WHERE ")
      ∷ raw (c ∷ s)
      ∷ sql (codes " ORDER BY LOWER(album_artist_name), LOWER(album_name), album_pos")
      ∷ [])

  unfoldable pub tracks_searchf : (Expr → M p Bytes) → Expr → M p (List Track)
  tracks_searchf sql_expr filter = sql_expr filter >>= tracks_where

  unfoldable pub tracks : M p ℕ
  tracks =
      select p opened_cb minus_one
        (sql (codes "SELECT count(*) FROM stor_file WHERE title NOTNULL AND NOT broken") ∷ [])
        (λ r. pure (pgint p r 0 0))

  -- The answer of track_exists as a truth value; that of the command is only logged.
  unfoldable pub track_exists : Stored → M p Bool
  track_exists t s =
      let missing =
        (command p opened_cb false false (
            sql (codes "UPDATE stor_file SET available = false WHERE id = ") ∷ int t.track.id ∷ []))
          s in
      if p.readable (track_mkpath p t) s.pg then (s, true) else missing
