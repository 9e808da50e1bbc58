-- ===== src/Pgdb/Tags.antt =====
-- pgdb/tag.c: the tags, and pgdb/sfilter.c: the filters that are stored. The callbacks are those that
-- proto_init installs.
use dudld.Common.{
  ℕ, suc, zero, ◌-◌, ◌^◌, ltb, if◌then◌else◌, Bytes, List, [], ◌∷◌, Option, none, some, codes,
}
use dudld.Commands.Session.{is_negative}
use dudld.Pgdb.Server.{
  Result, Server, Db, M, pure, ◌>>=◌, ◌>>◌, Part, sql, int, escaped, pq_clear, call, tag_changed,
}
use dudld.Pgdb.Connection.{db_query, is_command}
use dudld.Pgdb.Shapes.{minus_one, select, command, iterate, select_id, nextval, with_id}
use dudld.Format.Records.{Tag, Sfilter}
use dudld.Pgdb.Rows.{tag_convert, sfilter_convert}

module _ (p : Server) (opened_cb : Db p → Db p) where
  unfoldable pub tag_get : ℕ → M p (Option Tag)
  tag_get id =
      select p opened_cb none
        (sql (codes "SELECT id, name, cmnt FROM mserv_tag WHERE id = ") ∷ int id ∷ [])
        (λ r. pure (tag_convert p r 0))

  unfoldable pub tag_id : Bytes → M p ℕ
  tag_id name =
      select_id p opened_cb (
        sql (codes "SELECT id FROM mserv_tag WHERE name = '") ∷ escaped name ∷ sql (codes "'") ∷ [])

  -- The records of tags that a query returns.
  unfoldable pub iterate_tags : List Part → M p (List Tag)
  iterate_tags = iterate p opened_cb (λ r tup. pure (tag_convert p r tup))

  unfoldable pub tags_list : M p (List Tag)
  tags_list =
      iterate_tags (sql (codes "SELECT id, name, cmnt FROM mserv_tag ORDER BY LOWER(name)") ∷ [])

  unfoldable pub tags_artist : ℕ → M p (List Tag)
  tags_artist aid = iterate_tags (
      sql (
        codes
          "SELECT id, name, cmnt FROM mserv_tag t WHERE t.id IN ( SELECT tt.tag_id FROM stor_file f INNER JOIN mserv_filetag tt ON f.id = tt.file_id WHERE f.artist_id = ")
      ∷ int aid
      ∷ sql (codes " ) ORDER BY LOWER(name)")
      ∷ [])

  -- tag_func_changed on a tag that is there, behind a command that did not fail.
  unfoldable pub tell_changed : ℕ → ℕ → M p ℕ
  tell_changed id r = do
    t ← if is_negative r then pure none else tag_get id
    elim t [ none ↦ pure r | some t ↦ call (tag_changed t) >> pure r ]

  unfoldable pub tag_add : Bytes → M p ℕ
  tag_add name =
      nextval p opened_cb (codes "mserv_tag_id_seq")
      >>= with_id p opened_cb λ id.
        command p opened_cb minus_one id (
          sql (codes "INSERT INTO mserv_tag(id, name) VALUES( ")
          ∷ int id
          ∷ sql (codes ", '")
          ∷ escaped name
          ∷ sql (codes "')")
          ∷ [])
        >>= tell_changed id

  -- tag_func_del is there, but tag_func_changed is called.
  unfoldable pub tell_deleted : Option Tag → Option Result → M p (Unit {0})
  tell_deleted none res = pure tt
  tell_deleted (some t) res = if is_command res then call (tag_changed t) else pure tt

  unfoldable pub tag_del : ℕ → M p ℕ
  tag_del id = do
    t ← tag_get id
    res ← db_query p opened_cb (sql (codes "DELETE FROM mserv_tag WHERE id = ") ∷ int id ∷ [])
    tell_deleted t res
    pq_clear res
    pure (if is_command res then 0 else minus_one)

  unfoldable pub tag_setname : ℕ → Bytes → M p ℕ
  tag_setname id name =
      command p opened_cb minus_one 0 (
        sql (codes "UPDATE mserv_tag SET name ='")
        ∷ escaped name
        ∷ sql (codes "' WHERE id = ")
        ∷ int id
        ∷ [])
      >>= tell_changed id

  unfoldable pub tag_setdesc : ℕ → Bytes → M p ℕ
  tag_setdesc id desc =
      command p opened_cb minus_one 0 (
        sql (codes "UPDATE mserv_tag SET cmnt ='")
        ∷ escaped desc
        ∷ sql (codes "' WHERE id = ")
        ∷ int id
        ∷ [])
      >>= tell_changed id

  unfoldable pub track_tags : ℕ → M p (List Tag)
  track_tags tid = iterate_tags (
      sql (
        codes
          "SELECT tg.id, tg.name, tg.cmnt FROM mserv_tag tg INNER JOIN mserv_filetag tt ON tg.id = tt.tag_id INNER JOIN stor_file t ON tt.file_id = t.id WHERE t.id = ")
      ∷ int tid
      ∷ sql (codes " ORDER BY LOWER(tg.name)")
      ∷ [])

  unfoldable pub track_tagged : ℕ → ℕ → M p ℕ
  track_tagged tid id =
      select p opened_cb minus_one
        (sql (codes "SELECT tag_id FROM mserv_filetag WHERE file_id = ")
          ∷ int tid
          ∷ sql (codes " AND tag_id = ")
          ∷ int id
          ∷ [])
        (λ r. pure (if ltb 0 r.ntuples then 1 else 0))

  -- Behind the query for the tag: how many rows it returned, none where it failed.
  unfoldable pub tag_track : ℕ → ℕ → Option ℕ → M p ℕ
  tag_track tid id none = pure minus_one
  tag_track tid id (some zero) = pure (2 ^ 32 - 2)
  tag_track tid id (some (suc n)) = track_tagged tid id >>= λ r.
      if is_negative r
      then pure minus_one
      else if ltb 0 r
      then pure 0
      else command p opened_cb minus_one 0 (
          sql (codes "INSERT INTO mserv_filetag( tag_id, file_id ) VALUES( ")
          ∷ int id
          ∷ sql (codes ", ")
          ∷ int tid
          ∷ sql (codes " )")
          ∷ [])

  unfoldable pub track_tagadd : ℕ → ℕ → M p ℕ
  track_tagadd tid id =
      select p opened_cb none (sql (codes "SELECT id FROM mserv_tag WHERE id = ") ∷ int id ∷ [])
        (λ r. pure (some r.ntuples))
      >>= tag_track tid id

  unfoldable pub track_tagdel : ℕ → ℕ → M p ℕ
  track_tagdel tid id = command p opened_cb minus_one 0 (
      sql (codes "DELETE FROM mserv_filetag WHERE tag_id = ")
      ∷ int id
      ∷ sql (codes " AND file_id = ")
      ∷ int tid
      ∷ sql (codes " ")
      ∷ [])

  unfoldable pub sfilter_get : ℕ → M p (Option Sfilter)
  sfilter_get id =
      select p opened_cb none
        (sql (codes "SELECT id, name, filter FROM juke_sfilter WHERE id = ") ∷ int id ∷ [])
        (λ r. pure (sfilter_convert p r 0))

  unfoldable pub sfilter_id : Bytes → M p ℕ
  sfilter_id name = select_id p opened_cb (
      sql (codes "SELECT id FROM juke_sfilter WHERE name = '")
      ∷ escaped name
      ∷ sql (codes "'")
      ∷ [])

  unfoldable pub sfilters_list : M p (List Sfilter)
  sfilters_list =
      iterate p opened_cb (λ r tup. pure (sfilter_convert p r tup))
        (sql (codes "SELECT id, name, filter FROM juke_sfilter ORDER BY LOWER(name)") ∷ [])

  unfoldable pub sfilter_add : Bytes → M p ℕ
  sfilter_add name =
      nextval p opened_cb (codes "juke_sfilter_id_seq")
      >>= with_id p opened_cb λ id. command p opened_cb minus_one id (
          sql (codes "INSERT INTO juke_sfilter(id, name) VALUES( ")
          ∷ int id
          ∷ sql (codes ", '")
          ∷ escaped name
          ∷ sql (codes "')")
          ∷ [])

  unfoldable pub sfilter_del : ℕ → M p ℕ
  sfilter_del id =
      command p opened_cb minus_one 0
        (sql (codes "DELETE FROM juke_sfilter WHERE id = ") ∷ int id ∷ [])

  unfoldable pub sfilter_setname : ℕ → Bytes → M p ℕ
  sfilter_setname id name = command p opened_cb minus_one 0 (
      sql (codes "UPDATE juke_sfilter SET name ='")
      ∷ escaped name
      ∷ sql (codes "' WHERE id = ")
      ∷ int id
      ∷ [])

  unfoldable pub sfilter_setfilter : ℕ → Bytes → M p ℕ
  sfilter_setfilter id filter = command p opened_cb minus_one 0 (
      sql (codes "UPDATE juke_sfilter SET filter ='")
      ∷ escaped filter
      ∷ sql (codes "' WHERE id = ")
      ∷ int id
      ∷ [])
