-- ===== src/Pgdb/Sent.antt =====
-- What PostgreSQL is sent from the start of the program to its end.
use dudld.Common.{ℕ, ◌≡◌, refl, sym, subst, Bool, Bytes, List, [], ◌∷◌, Option, All}
use dudld.Common.Memory.{Memory, IsIntact}
use dudld.Player.State.{Pipeline}
use dudld.Proto.Dispatch.{Cmd}
use dudld.Sql.Filter.{sql_len}
use dudld.Commands.Session.{Database, World, Session}
use dudld.Commands.Requests.{Request, run}
use dudld.Commands.Preserving.{Named}
use dudld.Commands.Preserving.Run.{run-Preserves}
use dudld.Pgdb.Server.{Server, Db}
use dudld.Pgdb.Startup.{db_connected, filter_sql, db_init, load_filter, save_filter}
use dudld.Pgdb.Queues.{queue_fetch}
use dudld.Pgdb.Random.{random_fetch, history_add}
use dudld.Pgdb.Users.{shown}
use dudld.Pgdb.Database.{pgdb}
use dudld.Pgdb.Runs.{IsClean, IsSent}
use dudld.Pgdb.Safety.{IsName, IsSafe, Sends, pgdb-Preserves}
use dudld.Pgdb.Kept.Users.{IsQuotable}
use dudld.Pgdb.Kept.Queues.{Keeps-queue_fetch}
use dudld.Pgdb.Kept.Random.{Keeps-random_fetch, Keeps-history_add}
use dudld.Pgdb.Kept.Startup.{
  db_connected-IsClean, filter_sql-Reads, Keeps-db_init, Keeps-load_filter, Keeps-save_filter,
}

-- What makes the program use the database: a command of a client, with its code, and the player, which
-- takes a track from the queue, one by chance, and records one.
pub data Occasion (g : Pipeline) : Type 0 where
  command : Request g → Bytes → Occasion g
  fetch_queued fetch_random : Occasion g
  finished : ℕ → ℕ → Bool → Occasion g

module _ (p : Server) (sbuf stack : Memory) (salt : ℕ → ℕ) where
  abbrev pub served : Database
  served = pgdb p (db_connected p sbuf stack) salt (filter_sql p sbuf stack)

  module _ {g : Pipeline} {D : Type 0} (w : World g) (cmds : List (Cmd D))
      (scaled : ℕ → ℕ → ℕ) where
    -- One event.
    abbrev pub happen : Occasion g → Session g served → Session g served
    happen (command r code) s = run cmds w r code s
    happen fetch_queued s = record s { db = (queue_fetch p (db_connected p sbuf stack) s.db).0 }
    happen fetch_random s = record s {
      db = (random_fetch p (db_connected p sbuf stack) scaled s.db).0;
    }
    happen (finished track uid completed) s = record s {
      db = (history_add p (db_connected p sbuf stack) track uid completed s.db).0;
    }

    abbrev pub happen_all : List (Occasion g) → Session g served → Session g served
    happen_all [] s = s
    happen_all (e ∷ es) s = happen_all es (happen e s)

    -- db_init and load_filter, then the events, then save_filter.
    abbrev pub lifetime : Option Bytes → Memory → List (Occasion g) → Session g served → Db p
    lifetime opt buf es s =
        let up = (load_filter p sbuf stack opt (db_init p sbuf stack s.db).0).0 in
        (save_filter p sbuf stack buf opt (happen_all es (record s { db = up })).db).0

-- Names of users are letters and digits, as val_name takes them.
abbrev pub OccasionNamed : {g : Pipeline} → Occasion g → Type 0
OccasionNamed (command r code) = Named IsName r
OccasionNamed e = Unit

module _ {p : Server} {sbuf stack : Memory} (isbuf : IsIntact sql_len sbuf)
    (istack : IsIntact 4096 stack)
    (crypted : (pass salt : Bytes) → IsQuotable (shown (p.crypt pass salt))) (salt : ℕ → ℕ) where
  abbrev opened : (k : ℕ) (s : Db p) → IsClean k s → IsClean k (db_connected p sbuf stack s)
  opened = db_connected-IsClean sbuf stack isbuf istack

  sends : Sends (db_connected p sbuf stack) (filter_sql p sbuf stack)
  sends = record {
    opened = opened;
    written = λ e k s h. filter_sql-Reads sbuf stack isbuf istack k e s h;
    crypted = crypted;
  }

  module _ {g : Pipeline} {D : Type 0} (w : World g) (cmds : List (Cmd D))
      (scaled : ℕ → ℕ → ℕ) where
    happen-IsSafe :
        (e : Occasion g) (s : Session g (served p sbuf stack salt))
        → OccasionNamed e
        → IsSafe s.db
        → IsSafe (happen p sbuf stack salt w cmds scaled e s).db
    happen-IsSafe (command r code) s n c =
        run-Preserves w IsSafe cmds (pgdb-Preserves _ salt _ sends) r code s n c
    happen-IsSafe fetch_queued s n (k, c) = (k, (Keeps-queue_fetch _ opened k).at s.db c)
    happen-IsSafe fetch_random s n (k, c) = (k, (Keeps-random_fetch _ opened k scaled).at s.db c)
    happen-IsSafe (finished track uid completed) s n (k, c) =
        (k, (Keeps-history_add _ opened k track uid completed).at s.db c)

    happen_all-IsSafe :
        (es : List (Occasion g)) (s : Session g (served p sbuf stack salt))
        → All OccasionNamed es
        → IsSafe s.db
        → IsSafe (happen_all p sbuf stack salt w cmds scaled es s).db
    happen_all-IsSafe [] s n c = c
    happen_all-IsSafe (e ∷ es) s (n, ns) c = happen_all-IsSafe es _ ns (happen-IsSafe e s n c)

    -- Where what crypt answers, as it is printed, holds no quote, and names of new users are letters
    -- and digits, as val_name takes them, with arrays as large as they are declared: from db_init and
    -- load_filter over any commands of a client and any calls of queue_fetch, random_fetch and
    -- history_add to save_filter, every text that PQexec is given can be read, with
    -- standard_conforming_strings on, with no ';', no comment, and no backslash, '$', '/' or '"'
    -- outside of its quotes, whatever the database answers and the commands hold.
    pub lifetime-IsSent :
        (opt : Option Bytes) (buf : Memory) (es : List (Occasion g))
        (s : Session g (served p sbuf stack salt))
        → All OccasionNamed es
        → s.db.sent ≡ []
        → All IsSent (lifetime p sbuf stack salt w cmds scaled opt buf es s).sent
    lifetime-IsSent opt buf es s n e =
        let fresh : IsClean s.db.results s.db = record {
          results = refl;
          texts = subst (All IsSent) (sym e) tt;
        } in
        let up =
          (Keeps-load_filter sbuf stack isbuf istack _ opt).at _
            ((Keeps-db_init sbuf stack isbuf istack s.db.results).at s.db fresh) in
        let (k, c) = happen_all-IsSafe es (record s { db = _ }) n (s.db.results, up) in
        ((Keeps-save_filter sbuf stack isbuf istack k buf opt).at _ c).texts
