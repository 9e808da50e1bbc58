-- ===== src/Pgdb/Server.antt =====
-- pgdb/dudldb.h: what the functions of the database work on. libpq, PostgreSQL, the options, the clock and
-- strtol and crypt are a parameter, `Server`. Memory does not run out, and what is freed but the results of
-- queries is left out. An `int` is held as its 32-bit pattern.
use dudld.Common.{ℕ, ◌+◌, ◌-◌, Bool, Bytes, List, [], ◌∷◌, ◌++◌, Option, none, some}
use dudld.ParseExpr.Syntax.{Expr}
use dudld.ParseExpr.Text.{print_int}
use dudld.Format.Records.{Queue, Tag}
use dudld.Sql.Escape.{db_escape}

-- What PQresultStatus answers; `other_status` is any other one.
pub data Status : Type 0 where
  command_ok tuples_ok other_status : Status

-- A PGresult, as PQresultStatus, PQntuples, PQfnumber (none is -1), PQgetvalue and PQcmdTuples (none is
-- NULL) read it. What PQgetvalue answers for a row that is not there, which is NULL, is some text here.
pub record Result : Type 0 where
  pub status : Status
  pub ntuples : ℕ
  pub fnumber : Bytes → Option ℕ
  pub getvalue : ℕ → ℕ → Bytes
  pub cmd_tuples : Option Bytes

-- PQexec on the connection (none is a result that is NULL), PQstatus of it, PQconnectdb with whether it
-- answers a handle, PQfinish, strtol, g_ascii_strtoll, crypt (NULL is none), random,
-- time, whether open can read a file, and the options.
pub record Server : Type 1 where
  pub S : Type 0
  pub exec : Bytes → S → S × Option Result
  pub is_ok : S → Bool
  pub connect : Bytes → S → S × Bool
  pub finish : S → S
  pub strtol : Bytes → ℕ
  pub strtoll : Bytes → ℕ
  pub crypt : Bytes → Bytes → Option Bytes
  pub random : S → S × ℕ
  pub time : S → S × ℕ
  pub readable : Bytes → S → Bool
  pub opt_path_tracks : Bytes
  pub opt_db_host : Option Bytes
  pub opt_db_port : Option Bytes
  pub opt_db_name : Option Bytes
  pub opt_db_user : Option Bytes
  pub opt_db_pass : Option Bytes

-- The calls of the callbacks that proto_init installs.
pub data Call : Type 0 where
  queue_added queue_deleted queue_fetched : Queue → Call
  queue_cleared random_filtered : Call
  tag_changed tag_deleted : Tag → Call

-- `dbcon`: whether it is not NULL; `inprogress` of db_conn; how many results there are that PQclear was not
-- called on; the texts that PQexec was given, the last one first; the callbacks that were called; `filter` of
-- pgdb/random.c.
pub record Db (p : Server) : Type 0 where
  pub pg : p.S
  pub dbcon : Bool
  pub inprogress : Bool
  pub results : ℕ
  pub sent : List Bytes
  pub calls : List Call
  pub filter : Option Expr

abbrev pub M : Server → Type 0 → Type 0
M p A = Db p → Db p × A

abbrev pub pure : {p : Server} {A : Type 0} → A → M p A
pure a s = (s, a)

infixl 5 ◌>>=◌ ◌>>◌
unfoldable pub ◌>>=◌ : {p : Server} {A B : Type 0} → M p A → (A → M p B) → M p B
◌>>=◌ m f s = let (t, a) = m s in f a t

unfoldable pub ◌>>◌ : {p : Server} {A B : Type 0} → M p A → M p B → M p B
m >> k = m >>= λ _. k

-- A piece of what vsnprintf makes of a query: text of the format, a "%d", a "%s" of an escaped text, and a
-- "%s" of another one.
pub data Part : Type 0 where
  sql : Bytes → Part
  int : ℕ → Part
  escaped : Bytes → Part
  raw : Bytes → Part

unfoldable pub print_part : Part → Bytes
print_part (sql s) = s
print_part (int n) = print_int n
print_part (escaped s) = db_escape s
print_part (raw s) = s

unfoldable pub print_query : List Part → Bytes
print_query [] = []
print_query (q ∷ qs) = print_part q ++ print_query qs

module _ {p : Server} where
  unfoldable pub pq_exec : Bytes → M p (Option Result)
  pq_exec buf s =
      let (pg, res) = p.exec buf s.pg in
      let t = record s { pg = pg; sent = buf ∷ s.sent } in
      elim res [ none ↦ (t, none) | some r ↦ (record t { results = s.results + 1 }, some r) ]

  unfoldable pub pq_clear : Option Result → M p (Unit {0})
  pq_clear none s = (s, tt)
  pq_clear (some r) s = (record s { results = s.results - 1 }, tt)

  unfoldable pub call : Call → M p (Unit {0})
  call c s = (record s { calls = c ∷ s.calls }, tt)

module _ (p : Server) where
  unfoldable pub pgint : Result → ℕ → ℕ → ℕ
  pgint r tup field = p.strtol (r.getvalue tup field)

  unfoldable pub pgint64 : Result → ℕ → ℕ → ℕ
  pgint64 r tup field = p.strtoll (r.getvalue tup field)
