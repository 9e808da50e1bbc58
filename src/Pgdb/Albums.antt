-- ===== src/Pgdb/Albums.antt =====
-- pgdb/artist.c and pgdb/album.c: the artists and the albums.
use dudld.Common.{ℕ, true, false, Bytes, List, [], ◌∷◌, Option, none, codes}
use dudld.Pgdb.Server.{Result, Server, Db, M, pure, ◌>>=◌, ◌>>◌, Part, sql, int, escaped, pq_clear}
use dudld.Pgdb.Connection.{db_query, is_command}
use dudld.Pgdb.Shapes.{minus_one, select, command, iterate, nextval, with_id}
use dudld.Format.Records.{Artist, Album}
use dudld.Pgdb.Rows.{artist_convert_title, album_convert}

module _ (p : Server) (opened_cb : Db p → Db p) where
  unfoldable pub artist_get : ℕ → M p (Option Artist)
  artist_get id =
      select p opened_cb none
        (sql (codes "SELECT * FROM mserv_artist WHERE artist_id = ") ∷ int id ∷ [])
        (λ r. pure (artist_convert_title p r 0))

  unfoldable pub iterate_artists : List Part → M p (List Artist)
  iterate_artists = iterate p opened_cb (λ r tup. pure (artist_convert_title p r tup))

  unfoldable pub artists_list : M p (List Artist)
  artists_list =
      iterate_artists (sql (codes "SELECT * FROM mserv_artist ORDER BY LOWER(artist_name)") ∷ [])

  unfoldable pub artists_tag : ℕ → M p (List Artist)
  artists_tag tid = iterate_artists (
      sql (
        codes
          "SELECT * FROM mserv_artist a WHERE a.artist_id IN ( SELECT f.artist_id FROM stor_file f INNER JOIN mserv_filetag t ON f.id = t.file_id WHERE t.tag_id = ")
      ∷ int tid
      ∷ sql (codes " ) ORDER BY LOWER(artist_name)")
      ∷ [])

  unfoldable pub artists_search : Bytes → M p (List Artist)
  artists_search substr = iterate_artists (
      sql (codes "SELECT * FROM mserv_artist WHERE LOWER(artist_name) LIKE LOWER('%")
      ∷ escaped substr
      ∷ sql (codes "%') ORDER BY LOWER(artist_name)")
      ∷ [])

  unfoldable pub artist_add : Bytes → M p ℕ
  artist_add name =
      nextval p opened_cb (codes "mus_artist_id_seq")
      >>= with_id p opened_cb λ id. command p opened_cb minus_one id (
          sql (codes "INSERT INTO mus_artist(id, nname) VALUES( ")
          ∷ int id
          ∷ sql (codes ", '")
          ∷ escaped name
          ∷ sql (codes "')")
          ∷ [])

  unfoldable pub artist_setname : ℕ → Bytes → M p ℕ
  artist_setname artistid name = command p opened_cb minus_one 0 (
      sql (codes "UPDATE mus_artist SET nname = '")
      ∷ escaped name
      ∷ sql (codes "' WHERE id = ")
      ∷ int artistid
      ∷ [])

  unfoldable pub artist_del : ℕ → M p ℕ
  artist_del artistid =
      command p opened_cb minus_one 0
        (sql (codes "DELETE FROM mus_artist WHERE id = ") ∷ int artistid ∷ [])

  -- A command of artist_merge: the result of one that did not fail is not cleared.
  unfoldable pub merge_step : List Part → (Option Result → M p ℕ) → M p ℕ → M p ℕ
  merge_step q failed next = do
    res ← db_query p opened_cb q
    elim (is_command res) [ true ↦ next | false ↦ failed res ]

  unfoldable pub merge_failed : Option Result → M p ℕ
  merge_failed res = pq_clear res >> pure minus_one

  unfoldable pub merge_rollback : Option Result → M p ℕ
  merge_rollback res = do
    pq_clear res
    back ← db_query p opened_cb (sql (codes "ROLLBACK") ∷ [])
    pq_clear back >> pure 1

  unfoldable pub artist_merge : ℕ → ℕ → M p ℕ
  artist_merge fromid toid = merge_step (sql (codes "BEGIN") ∷ []) merge_failed (
      merge_step
        (sql (codes "UPDATE stor_file SET artist_id = ")
          ∷ int toid
          ∷ sql (codes " WHERE artist_id = ")
          ∷ int fromid
          ∷ [])
        merge_rollback
        (merge_step
          (sql (codes "UPDATE mus_album SET artist_id = ")
            ∷ int toid
            ∷ sql (codes " WHERE artist_id = ")
            ∷ int fromid
            ∷ [])
          merge_rollback
          (merge_step (sql (codes "DELETE FROM mus_artist WHERE id = ") ∷ int fromid ∷ [])
            merge_rollback (merge_step (sql (codes "COMMIT") ∷ []) merge_rollback (pure 0)))))

  unfoldable pub album_get : ℕ → M p (Option Album)
  album_get id =
      select p opened_cb none
        (sql (codes "SELECT * FROM mserv_album WHERE album_id = ") ∷ int id ∷ [])
        (λ r. pure (album_convert p r 0))

  unfoldable pub iterate_albums : List Part → M p (List Album)
  iterate_albums = iterate p opened_cb (λ r tup. pure (album_convert p r tup))

  unfoldable pub albums_list : M p (List Album)
  albums_list = iterate_albums (
      sql (codes "SELECT * FROM mserv_album ORDER BY LOWER(album_artist_name), LOWER(album_name)")
      ∷ [])

  unfoldable pub albums_artistid : ℕ → M p (List Album)
  albums_artistid artistid = iterate_albums (
      sql (codes "SELECT * FROM mserv_album WHERE album_artist_id = ")
      ∷ int artistid
      ∷ sql (codes " ORDER BY LOWER(album_name)")
      ∷ [])

  unfoldable pub albums_tag : ℕ → M p (List Album)
  albums_tag tid = iterate_albums (
      sql (
        codes
          "SELECT * FROM mserv_album a WHERE a.album_id IN ( SELECT f.album_id FROM stor_file f INNER JOIN mserv_filetag t ON f.id = t.file_id WHERE t.tag_id = ")
      ∷ int tid
      ∷ sql (codes " ) ORDER BY LOWER(album_name)")
      ∷ [])

  unfoldable pub albums_search : Bytes → M p (List Album)
  albums_search substr = iterate_albums (
      sql (codes "SELECT * FROM mserv_album WHERE LOWER(album_name) LIKE LOWER('%")
      ∷ escaped substr
      ∷ sql (codes "%') ORDER BY LOWER(album_artist_name), LOWER(album_name)")
      ∷ [])

  unfoldable pub album_setname : ℕ → Bytes → M p ℕ
  album_setname albumid name = command p opened_cb minus_one 0 (
      sql (codes "UPDATE mus_album SET album = '")
      ∷ escaped name
      ∷ sql (codes "' WHERE id = ")
      ∷ int albumid
      ∷ [])

  unfoldable pub album_setartist : ℕ → ℕ → M p ℕ
  album_setartist albumid artistid = command p opened_cb minus_one 0 (
      sql (codes "UPDATE mus_album SET artist_id = ")
      ∷ int artistid
      ∷ sql (codes " WHERE id = ")
      ∷ int albumid
      ∷ [])

  unfoldable pub album_setyear : ℕ → ℕ → M p ℕ
  album_setyear albumid year = command p opened_cb minus_one 0 (
      sql (codes "UPDATE mus_album SET publish_date = '")
      ∷ int year
      ∷ sql (codes "-1-1' WHERE id = ")
      ∷ int albumid
      ∷ [])
