-- ===== src/Pgdb/Tests.antt =====
-- The theorems on pgdb at a concrete server.
use dudld.Common.{
  ◌/◌, ◌≡◌, ◌↔◌, refl, true, false, not, if◌then◌else◌, ◌==◌, Bytes, List, [], ◌∷◌, none, some, All,
  codes,
}
use dudld.Common.Char.{isalnum, isspace}
use dudld.Common.Memory.{zeros, zeros-IsIntact}
use dudld.ParseExpr.Syntax.{Expr, string, vf_tag, vo_eq, op_self}
use dudld.Sql.Reading.{outside, inside, read_text, read_byte, Reads}
use dudld.Proto.Dispatch.{p_idle}
use dudld.Format.Records.{User}
use dudld.Format.Tests.{silent}
use dudld.Player.Tests.{machine}
use dudld.Sleep.Tests.{awake}
use dudld.Commands.Session.{Session}
use dudld.Commands.Requests.{useradd, tagsetname}
use dudld.Commands.Tests.{bob, world, table}
use dudld.Pgdb.Server.{
  Status, command_ok, tuples_ok, Result, Server, Db, Part, sql, escaped, print_query, print_part,
  ◌>>=◌, pq_exec,
}
use dudld.Pgdb.Connection.{db_conn, trim, addopt, is_command, db_query, db_vquery, check_connection}
use dudld.Pgdb.Filters.{where_of}
use dudld.Pgdb.Startup.{db_connected}
use dudld.Pgdb.Users.{user_ok, pass_gen, shown}
use dudld.Pgdb.Albums.{artist_merge, merge_step}
use dudld.ParseExpr.Text.{print_int, digits}
use dudld.Pgdb.Statement.{query_place, read_query}
use dudld.Pgdb.Runs.{IsClean, IsSent}
use dudld.Pgdb.Connected.{db_conn-dbcon, user_ok-pass_gen}
use dudld.Pgdb.Kept.Merge.{Left, artist_merge-Left}
use dudld.Pgdb.Kept.Filters.{where_of-Reads}
use dudld.Pgdb.Sent.{
  Occasion, command, fetch_queued, fetch_random, finished, served, lifetime, lifetime-IsSent,
}

-- One row with a 4 in each column.
abbrev answer : Status → Result
answer st = record {
  status = st;
  ntuples = 1;
  fnumber = λ name. some 0;
  getvalue = λ tup field. codes "4";
  cmd_tuples = some (codes "1");
}

-- Whether a text begins with "SELECT".
abbrev status_of : Bytes → Status
status_of [] = command_ok
status_of (c ∷ s) = if c == b'S' then tuples_ok else command_ok

-- A server that answers every query and whose crypt answers always the same.
abbrev server : Server
server = record {
  S = Unit;
  exec = λ q s. (s, some (answer (status_of q)));
  is_ok = λ s. true;
  connect = λ o s. (s, true);
  finish = λ s. s;
  strtol = λ s. 4;
  strtoll = λ s. 4;
  crypt = λ w c. some (codes "f0Xy");
  random = λ s. (s, 7);
  time = λ s. (s, 1000);
  readable = λ f s. true;
  opt_path_tracks = codes "/srv";
  opt_db_host = none;
  opt_db_port = none;
  opt_db_name = some (codes "dudl");
  opt_db_user = none;
  opt_db_pass = none;
}

abbrev fresh : {p : Server} → p.S → Db p
fresh s = record {
  pg = s;
  dbcon = false;
  inprogress = false;
  results = 0;
  sent = [];
  calls = [];
  filter = none;
}

abbrev login : Session machine (served server (zeros 1024) (zeros 4096) (λ r. r / 8421505))
login = record {
  id = 1;
  sin_addr = (127, 0, 0, 1);
  out = silent;
  pstate = p_idle;
  user = some bob;
  pdata = none;
  closed = false;
  crashed = false;
  bcasts = [];
  sleep = awake;
  db = fresh tt;
}

abbrev evening : List (Occasion machine)
evening =
    command (useradd (codes "al")) (codes "215")
    ∷ command (tagsetname 1 (codes "it's")) (codes "272")
    ∷ fetch_queued
    ∷ fetch_random
    ∷ finished 4 2 true
    ∷ []

al_is_name : All (λ c. isalnum c ≡ true) (codes "al")
unfolding isalnum
al_is_name = (refl, (refl, tt))

crypted : (pass salt : Bytes) → read_text inside (shown (server.crypt pass salt)) ≡ some inside
unfolding read_text read_byte shown
crypted pass salt = refl

lifetime-IsSent_example :
    All IsSent
      (lifetime server
        (zeros 1024)
        (zeros 4096)
        (λ r. r / 8421505)
        world
        table
        (λ x n. 0)
        (some (codes "init"))
        (zeros 4096)
        evening
        login).sent
lifetime-IsSent_example =
    lifetime-IsSent (zeros-IsIntact 1024) (zeros-IsIntact 4096) crypted (λ r. r / 8421505) world
      table (λ x n. 0) (some (codes "init")) (zeros 4096) evening login
      (al_is_name, (tt, (tt, (tt, (tt, tt))))) refl

abbrev clean : Db server
clean = record (fresh tt) { dbcon = true }

clean-IsClean : IsClean 0 clean
clean-IsClean = record { results = refl; texts = tt }

artist_merge-Left_example : Left 5 (artist_merge server (λ s. s) 3 4 clean)
artist_merge-Left_example = artist_merge-Left (λ s. s) (λ k s c. c) 0 3 4 clean clean-IsClean

abbrev tagged : Expr
tagged = op_self (record { field = vf_tag; op = vo_eq; val = string (codes "it's") })

where_of-Reads_example :
    IsClean 0 (where_of server (λ s. s) (zeros 1024) (zeros 4096) tagged clean).0
    × Reads outside (where_of server (λ s. s) (zeros 1024) (zeros 4096) tagged clean).1
where_of-Reads_example =
    where_of-Reads (λ s. s) (λ k s c. c) 0 (zeros 1024) (zeros-IsIntact 1024) (zeros 4096)
      (zeros-IsIntact 4096) tagged clean clean-IsClean

db_conn-dbcon_example :
    let r = db_conn server (db_connected server (zeros 1024) (zeros 4096)) (fresh tt) in
    (r.1 ≡ not r.0.dbcon) × (r.0.inprogress ≡ false)
db_conn-dbcon_example = db_conn-dbcon (zeros 1024) (zeros 4096) (fresh tt) refl

-- A crypt that answers the password itself.
abbrev plain : Server
plain = record server { crypt = λ w c. some w }

user_ok-pass_gen_example :
    let u : User = record bob {
      pass = (pass_gen {p = plain} (λ r. r) (codes "secret") (fresh tt)).1;
    } in
    (user_ok plain u (codes "secret") ≡ true)
    × ((other : Bytes)
        → (user_ok plain u other ≡ true)
          ↔ (plain.crypt other (codes "secret") ≡ some (codes "secret")))
user_ok-pass_gen_example =
    user_ok-pass_gen {p = plain} (λ w c h e. cc e) (λ r. r) (codes "secret") (codes "secret")
      (fresh tt) bob refl

abbrev lookup : List Part
lookup =
    sql (codes "SELECT id FROM mserv_tag WHERE name = '")
    ∷ escaped (codes "it's")
    ∷ sql (codes "'")
    ∷ []

lookup_place : query_place outside lookup ≡ some outside
unfolding query_place
lookup_place = refl

read_query_example : read_text outside (print_query lookup) ≡ some outside
read_query_example = read_query outside lookup outside lookup_place

addopt_quote : addopt (codes "host") (some (codes "a'b")) ≡ codes "host='a'b' "
unfolding addopt
addopt_quote = refl

trim_blanks : trim (codes "a b  ") ≡ codes "a b"
unfolding trim isspace
trim_blanks = refl

-- artist_merge where every command succeeds: five results are left.
five_left : (artist_merge server (λ s. s) 3 4 clean).0.results ≡ 5
unfolding artist_merge merge_step ◌>>=◌ is_command db_query db_vquery print_query print_part
    check_connection pq_exec print_int digits
five_left = refl
