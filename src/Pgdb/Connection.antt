-- ===== src/Pgdb/Connection.antt =====
-- pgdb/dudldb.c: the connection to PostgreSQL and what sends a query. The callback that db_init is given is
-- a parameter.
use dudld.Common.{
  ℕ, ◌-◌, ltb, ◌==◌, if◌then◌else◌, Bool, true, false, ◌&&◌, Bytes, List, [], ◌∷◌, ◌++◌, Option,
  none, some, codes, length, take,
}
use dudld.Common.Char.{isspace}
use dudld.Pgdb.Server.{
  command_ok, tuples_ok, Result, Server, Db, M, pure, ◌>>=◌, ◌>>◌, Part, sql, print_query, pq_exec,
  pq_clear, pgint,
}

abbrev pub buflenquery : ℕ
buflenquery = 2048

abbrev dbver : ℕ
dbver = 4

unfoldable pub addopt : Bytes → Option Bytes → Bytes
addopt opt none = []
addopt opt (some []) = []
addopt opt (some (c ∷ s)) = opt ++ (codes "='" ++ (c ∷ (s ++ codes "' ")))

-- `res && PQresultStatus( res ) == …`
unfoldable pub is_tuples : Option Result → Bool
is_tuples none = false
is_tuples (some r) = elim r.status [ tuples_ok ↦ true | _ ↦ false ]

unfoldable pub is_command : Option Result → Bool
is_command none = false
is_command (some r) = elim r.status [ command_ok ↦ true | _ ↦ false ]

module _ (p : Server) where
  abbrev pub conninfo : Bytes
  conninfo =
      addopt (codes "host") p.opt_db_host
      ++ (addopt (codes "port") p.opt_db_port
          ++ (addopt (codes "dbname") p.opt_db_name
              ++ (addopt (codes "user") p.opt_db_user ++ addopt (codes "password") p.opt_db_pass)))

  unfoldable pub db_done : Db p → Db p
  db_done s = if s.dbcon then record s { pg = p.finish s.pg; dbcon = false } else s

  -- The part of db_vquery that sends again, given what connects; true is its answer 1.
  unfoldable pub send_again : M p Bool → Bytes → M p (Option Result)
  send_again connect buf = do
    failed ← connect
    elim failed [ true ↦ pure none | false ↦ pq_exec buf ]

  -- Behind the first PQexec; on a connection that is NULL, PQstatus is not CONNECTION_OK.
  unfoldable pub check_connection : M p Bool → Bytes → Option Result → M p (Option Result)
  check_connection connect buf res s =
      let lost = (pq_clear res >> send_again connect buf) s in
      if s.dbcon && p.is_ok s.pg then (s, res) else lost

  unfoldable pub db_vquery : M p Bool → List Part → M p (Option Result)
  db_vquery connect q s =
      let n = length (print_query q) in
      let buf = take (buflenquery - 1) (print_query q) in
      let first = (pq_exec buf >>= check_connection connect buf) s in
      let reconnect = check_connection connect buf none s in
      if ltb buflenquery n then (s, none) else if s.dbcon then first else reconnect

  -- A query in the time that `inprogress` is set: db_conn does nothing.
  unfoldable pub query_inside : List Part → M p (Option Result)
  query_inside = db_vquery (pure false)

  -- PQfinish of a handle that is NULL does nothing.
  unfoldable pub conn_failed : M p Bool
  conn_failed s = (record (db_done s) { inprogress = false }, true)

  unfoldable pub is_dbver : Result → Bool
  is_dbver r = r.ntuples == 1 && pgint p r 0 0 == dbver

  module _ (opened_cb : Db p → Db p) where
    -- Behind PQconnectdb.
    unfoldable pub check_version : Option Result → M p Bool
    check_version none s = conn_failed s
    check_version (some r) s =
        let (t, u) = pq_clear (some r) s in
        let opened = opened_cb t in
        if is_tuples (some r) && is_dbver r
        then (record opened { inprogress = false }, false)
        else conn_failed t

    unfoldable pub ask_version : M p Bool
    ask_version =
        query_inside (sql (codes "SELECT ver FROM dbver WHERE item = 'schema'") ∷ [])
        >>= check_version

    unfoldable pub db_conn : M p Bool
    db_conn s =
        let u = db_done (record s { inprogress = true }) in
        let (pg, handle) = p.connect conninfo u.pg in
        let t = record u { pg = pg; dbcon = handle } in
        let asked = ask_version t in
        let failed = conn_failed t in
        if s.inprogress then (s, false) else if handle && p.is_ok pg then asked else failed

    unfoldable pub db_query : List Part → M p (Option Result)
    db_query = db_vquery db_conn

-- pgstring: the text without the blanks behind it; its first byte stays.
unfoldable pub trim : Bytes → Bytes
trim [] = []
trim (c ∷ s) =
    let rest = trim s in elim rest [ [] ↦ if isspace c then [] else c ∷ [] | d ∷ ds ↦ c ∷ d ∷ ds ]

unfoldable pub pgstring : Result → ℕ → ℕ → Bytes
pgstring r tup field = elim (r.getvalue tup field) [ [] ↦ [] | c ∷ s ↦ c ∷ trim s ]
