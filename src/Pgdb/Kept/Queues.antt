-- ===== src/Pgdb/Kept/Queues.antt =====
-- pgdb/queue.c sends statements and clears its results.
use dudld.Common.{
  ℕ, ◌+◌, refl, Bool, true, false, some, none, Bytes, Option, codes, [], ◌∷◌, if◌then◌else◌, ltb,
  ◌==◌,
}
use dudld.Commands.Session.{is_negative}
use dudld.Format.Records.{User, Track, Queue}
use dudld.Pgdb.Server.{
  Result, Server, Db, ◌>>=◌, ◌>>◌, pure, sql, int, call, queue_added, queue_cleared,
}
use dudld.Pgdb.Connection.{is_command}
use dudld.Sql.Reading.{outside}
use dudld.Pgdb.Statement.{IsQuery, query_place}
use dudld.Pgdb.Runs.{
  IsClean, Keeps, with_result, Runs-pure, Runs-bind, Runs-then, Runs-if, Runs-clear, Keeps-call,
  Keeps-bind, Runs-db_query,
}
use dudld.Pgdb.Kept.{
  Keeps-told, Keeps-select, Keeps-select-pure, Keeps-command, Keeps-iterate, Keeps-nextval,
  Keeps-with_id,
}
use dudld.Pgdb.Server.{pgint}
use dudld.Pgdb.Users.{user_get}
use dudld.Pgdb.Tracks.{track_get, track_row}
use dudld.Pgdb.Queues.{
  queue_add, queue_clear, queue_convert, queue_del, queue_fetch, queue_fetched_row, queue_get,
  queue_list, queue_row, queue_sum, queue_track, tell_added, tell_deleted, delete_query,
}
use dudld.Pgdb.Kept.Users.{Keeps-user_get}
use dudld.Pgdb.Kept.Tracks.{Keeps-track_get}

module _ {p : Server} (opened_cb : Db p → Db p)
    (opened : (k : ℕ) (s : Db p) → IsClean k s → IsClean k (opened_cb s)) (k : ℕ) where
  Keeps-queue_track : (r : Result) (tup : ℕ) → Keeps k (queue_track p opened_cb r tup)
  unfolding queue_track track_row
  Keeps-queue_track r tup = by_field (r.fnumber (codes "file_id"))
    where
      by_field :
          (o : Option ℕ)
          → Keeps {p = p} {A = Option Track} k (elim o [
            | none ↦ track_row p opened_cb r tup
            | some f ↦ track_get p opened_cb (pgint p r tup f) >>= λ o.
                pure (elim o [ none ↦ none | some t ↦ some t.track ])
          ])
      by_field none = Runs-pure k _
      by_field (some f) = Keeps-bind (Keeps-track_get opened_cb opened k _) (λ o. Runs-pure k _)

  Keeps-queue_row :
      (r : Result) (tup f g : ℕ) (u : Option User) → Keeps k (queue_row p opened_cb r tup f g u)
  unfolding queue_row
  Keeps-queue_row r tup f g none = Runs-pure k none
  Keeps-queue_row r tup f g (some u) = Keeps-bind (Keeps-queue_track r tup) (λ o. Runs-pure k _)

  Keeps-queue_convert : (r : Result) (tup : ℕ) → Keeps k (queue_convert p opened_cb r tup)
  unfolding queue_convert
  Keeps-queue_convert r tup =
      Runs-if (ltb tup r.ntuples)
        (by_fields (r.fnumber (codes "qid")) (r.fnumber (codes "user_id"))
          (r.fnumber (codes "queued")))
        (Runs-pure k none)
    where
      by_fields :
          (a b c : Option ℕ)
          → Keeps {p = p} {A = Option Queue} k (elim a [
            | none ↦ pure none
            | some f ↦ elim b [
              | none ↦ pure none
              | some u ↦ elim c [
                | none ↦ pure none
                | some g ↦
                    user_get p opened_cb (pgint p r tup u) >>= queue_row p opened_cb r tup f g
              ]
            ]
          ])
      by_fields none b c = Runs-pure k none
      by_fields (some f) none c = Runs-pure k none
      by_fields (some f) (some u) none = Runs-pure k none
      by_fields (some f) (some u) (some g) =
          Keeps-bind (Keeps-user_get opened_cb opened k _) (Keeps-queue_row r tup f g)

module _ {p : Server} (opened_cb : Db p → Db p)
    (opened : (k : ℕ) (s : Db p) → IsClean k s → IsClean k (opened_cb s)) (k : ℕ) where
  pub Keeps-queue_get : (id : ℕ) → Keeps k (queue_get p opened_cb id)
  unfolding queue_get query_place
  Keeps-queue_get id =
      Keeps-select opened_cb opened k _ _ _ (outside, refl)
        (λ r. Keeps-queue_convert opened_cb opened (k + 1) r 0)

  Keeps-queue_fetched_row : (o : Option Queue) → Keeps k (queue_fetched_row p opened_cb o)
  unfolding queue_fetched_row query_place
  Keeps-queue_fetched_row none = Runs-pure k none
  Keeps-queue_fetched_row (some q) =
      Runs-bind (with_result k) (Runs-db_query opened_cb opened k _ (outside, refl)) (λ res.
        Runs-then k (Runs-clear k res) (Runs-then k (Keeps-call k _) (Runs-pure k (some q))))

  pub Keeps-queue_fetch : Keeps k (queue_fetch p opened_cb)
  unfolding queue_fetch query_place
  Keeps-queue_fetch =
      Keeps-bind
        (Keeps-select opened_cb opened k _ _ _ (outside, refl)
          (λ r. Keeps-queue_convert opened_cb opened (k + 1) r 0))
        Keeps-queue_fetched_row

  pub Keeps-queue_list : Keeps k (queue_list p opened_cb)
  unfolding queue_list query_place
  Keeps-queue_list =
      Keeps-iterate opened_cb opened k _ _ (outside, refl)
        (Keeps-queue_convert opened_cb opened (k + 1))

  Keeps-tell_added : (r : ℕ) → Keeps k (tell_added p opened_cb r)
  unfolding tell_added
  Keeps-tell_added r =
      Keeps-bind (Runs-if (is_negative r) (Runs-pure k none) (Keeps-queue_get r))
        (λ o. Keeps-told k o queue_added r)

  pub Keeps-queue_add : (trackid : ℕ) (uid : ℕ) → Keeps k (queue_add p opened_cb trackid uid)
  unfolding queue_add query_place
  Keeps-queue_add trackid uid = Keeps-bind (Keeps-nextval opened_cb opened k _ (outside, refl)) (
      Keeps-with_id opened_cb opened k _ (λ id.
        Keeps-bind (Keeps-command opened_cb opened k _ _ _ (outside, refl)) Keeps-tell_added))

  delete_query-IsQuery : (id uid : ℕ) → IsQuery (delete_query p opened_cb id uid)
  unfolding delete_query query_place
  delete_query-IsQuery id uid = by_uid (uid == 0)
    where
      by_uid :
          (b : Bool)
          → IsQuery (
              if b
              then sql (codes "DELETE FROM mserv_queue WHERE id = ") ∷ int id ∷ []
              else sql (codes "DELETE FROM mserv_queue WHERE id = ")
                ∷ int id
                ∷ sql (codes " and user_id = ")
                ∷ int uid
                ∷ [])
      by_uid true = (outside, refl)
      by_uid false = (outside, refl)

  Keeps-tell_deleted : (o : Option Queue) → Keeps k (tell_deleted p opened_cb o)
  unfolding tell_deleted
  Keeps-tell_deleted none = Runs-pure k 0
  Keeps-tell_deleted (some q) = Runs-then k (Keeps-call k _) (Runs-pure k 0)

  pub Keeps-queue_del : (id uid : ℕ) → Keeps k (queue_del p opened_cb id uid)
  unfolding queue_del
  Keeps-queue_del id uid = Keeps-bind (Keeps-queue_get id) (λ q.
      Runs-bind (with_result k) (Runs-db_query opened_cb opened k _ (delete_query-IsQuery id uid))
        (λ res. Runs-then k (Runs-clear k res) (deleted q res)))
    where
      by_number :
          (q : Option Queue) (r : Result) (o : Option Bytes)
          → Keeps {p = p} {A = ℕ} k (elim o [
            | none ↦ pure 1
            | some n ↦ if is_command (some r) then tell_deleted p opened_cb q else pure 1
          ])
      by_number q r none = Runs-pure k 1
      by_number q r (some n) = Runs-if (is_command (some r)) (Keeps-tell_deleted q) (Runs-pure k 1)

      deleted :
          (q : Option Queue) (res : Option Result)
          → Keeps {p = p} {A = ℕ} k (elim res [
            | none ↦ pure 1
            | some r ↦ elim r.cmd_tuples [
              | none ↦ pure 1
              | some n ↦ if is_command (some r) then tell_deleted p opened_cb q else pure 1
            ]
          ])
      deleted q none = Runs-pure k 1
      deleted q (some r) = by_number q r r.cmd_tuples

  pub Keeps-queue_clear : Keeps k (queue_clear p opened_cb)
  unfolding queue_clear query_place
  Keeps-queue_clear = Keeps-bind (Keeps-command opened_cb opened k _ _ _ (outside, refl)) told
    where
      told :
          (failed : Bool)
          → Keeps {p = p} {A = ℕ} k
              (elim failed [ true ↦ pure 1 | false ↦ call queue_cleared >> pure 0 ])
      told true = Runs-pure k 1
      told false = Runs-then k (Keeps-call k _) (Runs-pure k 0)

  pub Keeps-queue_sum : Keeps k (queue_sum p opened_cb)
  unfolding queue_sum query_place
  Keeps-queue_sum = Keeps-select-pure opened_cb opened k _ _ _ (outside, refl)
