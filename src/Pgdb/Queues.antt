-- ===== src/Pgdb/Queues.antt =====
-- pgdb/queue.c: the queue. The callbacks are those that proto_init installs.
use dudld.Common.{
  ℕ, ◌==◌, ltb, if◌then◌else◌, true, false, List, [], ◌∷◌, Option, none, some, codes,
}
use dudld.Commands.Session.{is_negative}
use dudld.Pgdb.Server.{
  Result, Server, Db, M, pure, ◌>>=◌, ◌>>◌, Part, sql, int, pq_clear, pgint, call, queue_added,
  queue_deleted, queue_fetched, queue_cleared,
}
use dudld.Pgdb.Connection.{db_query, is_command}
use dudld.Pgdb.Shapes.{minus_one, select, command, iterate, nextval, with_id}
use dudld.Format.Records.{User, Track, Queue}
use dudld.Pgdb.Users.{user_get}
use dudld.Pgdb.Tracks.{track_get, track_row}

module _ (p : Server) (opened_cb : Db p → Db p) where
  -- The track of a row: by its file_id where there is that column, else of the row itself.
  unfoldable pub queue_track : Result → ℕ → M p (Option Track)
  queue_track r tup = elim (r.fnumber (codes "file_id")) [
    | none ↦ track_row p opened_cb r tup
    | some f ↦ track_get p opened_cb (pgint p r tup f) >>= λ o.
        pure (elim o [ none ↦ none | some t ↦ some t.track ])
  ]

  -- A row with its user, who is asked for.
  unfoldable pub queue_row : Result → ℕ → ℕ → ℕ → Option User → M p (Option Queue)
  queue_row r tup f g none = pure none
  queue_row r tup f g (some u) = queue_track r tup >>= λ o. pure (elim o [
    | none ↦ none
    | some t ↦
        some (record { id = pgint p r tup f; queued = pgint p r tup g; user = some u; track = t })
  ])

  unfoldable pub queue_convert : Result → ℕ → M p (Option Queue)
  queue_convert r tup =
      if ltb tup r.ntuples
      then elim (r.fnumber (codes "qid")) [
        | none ↦ pure none
        | some f ↦ elim (r.fnumber (codes "user_id")) [
          | none ↦ pure none
          | some u ↦ elim (r.fnumber (codes "queued")) [
            | none ↦ pure none
            | some g ↦ user_get p opened_cb (pgint p r tup u) >>= queue_row r tup f g
          ]
        ]
      ]
      else pure none

  unfoldable pub queue_get : ℕ → M p (Option Queue)
  queue_get id =
      select p opened_cb none
        (sql (
            codes
              "SELECT id AS qid,file_id,time2unix(added) as queued,user_id FROM mserv_queue WHERE id = ")
          ∷ int id
          ∷ [])
        (λ r. queue_convert r 0)

  -- The command's failure is only logged.
  unfoldable pub queue_fetched_row : Option Queue → M p (Option Queue)
  queue_fetched_row none = pure none
  queue_fetched_row (some q) = do
    res ← db_query p opened_cb (sql (codes "DELETE FROM mserv_queue WHERE id =") ∷ int q.id ∷ [])
    pq_clear res
    call (queue_fetched q)
    pure (some q)

  unfoldable pub queue_fetch : M p (Option Queue)
  queue_fetch =
      select p opened_cb none
        (sql (
            codes
              "SELECT id AS qid,file_id,time2unix(added) as queued,user_id FROM mserv_queue ORDER BY id LIMIT 1")
          ∷ [])
        (λ r. queue_convert r 0)
      >>= queue_fetched_row

  unfoldable pub queue_list : M p (List Queue)
  queue_list = iterate p opened_cb queue_convert (
      sql (
        codes
          "SELECT q.id AS qid,time2unix(q.added) as queued,q.user_id, t.* FROM mserv_queue q INNER JOIN mserv_track t ON t.id = q.file_id ORDER BY q.id")
      ∷ [])

  -- queue_func_add, behind a command that did not fail.
  unfoldable pub tell_added : ℕ → M p ℕ
  tell_added r = do
    o ← if is_negative r then pure none else queue_get r
    elim o [ none ↦ pure r | some q ↦ call (queue_added q) >> pure r ]

  unfoldable pub queue_add : ℕ → ℕ → M p ℕ
  queue_add trackid uid =
      nextval p opened_cb (codes "mserv_queue_id_seq")
      >>= with_id p opened_cb λ qid.
        command p opened_cb minus_one qid (
          sql (codes "INSERT INTO mserv_queue(id, file_id, user_id) VALUES( ")
          ∷ int qid
          ∷ sql (codes ", ")
          ∷ int trackid
          ∷ sql (codes ", ")
          ∷ int uid
          ∷ sql (codes " )")
          ∷ [])
        >>= tell_added

  unfoldable pub delete_query : ℕ → ℕ → List Part
  delete_query queueid uid =
      if uid == 0
      then (sql (codes "DELETE FROM mserv_queue WHERE id = ") ∷ int queueid ∷ [])
      else (sql (codes "DELETE FROM mserv_queue WHERE id = ")
          ∷ int queueid
          ∷ sql (codes " and user_id = ")
          ∷ int uid
          ∷ [])

  unfoldable pub tell_deleted : Option Queue → M p ℕ
  tell_deleted none = pure 0
  tell_deleted (some q) = call (queue_deleted q) >> pure 0

  -- PQcmdTuples is compared with NULL.
  unfoldable pub queue_del : ℕ → ℕ → M p ℕ
  queue_del queueid uid = do
    q ← queue_get queueid
    res ← db_query p opened_cb (delete_query queueid uid)
    pq_clear res
    elim res [
      | none ↦ pure 1
      | some r ↦ elim r.cmd_tuples [
        | none ↦ pure 1
        | some n ↦ if is_command (some r) then tell_deleted q else pure 1
      ]
    ]

  unfoldable pub queue_clear : M p ℕ
  queue_clear = do
    failed ← command p opened_cb true false (sql (codes "DELETE FROM mserv_queue") ∷ [])
    elim failed [ true ↦ pure 1 | false ↦ call queue_cleared >> pure 0 ]

  unfoldable pub queue_sum : M p ℕ
  queue_sum =
      select p opened_cb minus_one
        (sql (
            codes
              "SELECT SUM(time2unix(f.duration)) FROM mserv_queue q INNER JOIN stor_file f ON q.file_id = f.id")
          ∷ [])
        (λ r. pure (if r.ntuples == 1 then pgint p r 0 0 else 0))
