-- ===== src/Pgdb/Connected.antt =====
-- pgdb/dudldb.c: when there is a connection, and pgdb/user.c: the passwords that it stores.
use dudld.Common.{
  ◌≡◌, ◌↔◌, refl, sym, Bool, true, false, ◌&&◌, ℕ, Bytes, Option, none, some, if◌then◌else◌,
  same_text, same_text_iff, arith, not, ap,
}
use dudld.Format.Records.{User}
use dudld.Pgdb.Server.{Result, Server, Db, ◌>>=◌}
use dudld.Pgdb.Connection.{
  db_done, query_inside, conn_failed, is_dbver, is_tuples, check_version, ask_version, conninfo,
  db_conn,
}
use dudld.Common.Memory.{Memory}
use dudld.Pgdb.Startup.{db_connected}
use dudld.Pgdb.Open.{IsOpen, Stays-clear, Stays-query_inside, db_connected-IsOpen}
use dudld.Pgdb.Users.{user_ok, pass_ok, pass_gen, shown, salt_text}

module _ {p : Server} where
  db_done-closed : (s : Db p) → (db_done p s).dbcon ≡ false
  unfolding db_done
  db_done-closed s = by_handle s.dbcon refl
    where
      by_handle :
          (b : Bool)
          → s.dbcon ≡ b
          → (if b then record s { pg = p.finish s.pg; dbcon = false } else s).dbcon ≡ false
      by_handle true e = refl
      by_handle false e = e

  db_done-inprogress : (s : Db p) → (db_done p (record s { inprogress = true })).inprogress ≡ true
  unfolding db_done
  db_done-inprogress s = by_handle s.dbcon
    where
      by_handle :
          (b : Bool)
          → let t : Db p = record s { inprogress = true } in
            (if b then record t { pg = p.finish s.pg; dbcon = false } else t).inprogress ≡ true
      by_handle true = refl
      by_handle false = refl

  -- What db_conn ends with: an answer that says whether there is a connection, and `inprogress` cleared.
  record Ends (r : Db p × Bool) : Type 0 where
    answer : r.1 ≡ not r.0.dbcon
    cleared : r.0.inprogress ≡ false

  Ends-conn_failed : (s : Db p) → Ends (conn_failed p s)
  unfolding conn_failed
  Ends-conn_failed s = record { answer = ap not (sym (db_done-closed s)); cleared = refl }

module _ {p : Server} (opened_cb : Db p → Db p)
    (stays : (t : Db p) → IsOpen t → IsOpen (opened_cb t)) where
  Ends-check_version :
      (res : Option Result) (s : Db p) → IsOpen s → Ends (check_version p opened_cb res s)
  unfolding check_version
  Ends-check_version none s h = Ends-conn_failed s
  Ends-check_version (some r) s h =
      checked _ ((Stays-clear (some r)).at s h) (is_tuples (some r) && is_dbver p r)
    where
      checked :
          (t : Db p)
          → IsOpen t
          → (b : Bool)
          → Ends
              (if b then (record (opened_cb t) { inprogress = false }, false) else conn_failed p t)
      checked t h true = record { answer = ap not (sym (stays t h).dbcon); cleared = refl }
      checked t h false = Ends-conn_failed t

  Ends-db_conn : (s : Db p) → s.inprogress ≡ false → Ends (db_conn p opened_cb s)
  unfolding db_conn ask_version query_inside ◌>>=◌
  Ends-db_conn s e =
      let u : Db p = db_done p (record s { inprogress = true }) in
      connected u (db_done-inprogress s) (p.connect (conninfo p) u.pg) s.inprogress e
    where
      connected :
          (u : Db p)
          → u.inprogress ≡ true
          → (c : p.S × Bool) (b : Bool) → b ≡ false
          → let t : Db p = record u { pg = c.0; dbcon = c.1 } in
            Ends (
              if b
              then (s, false)
              else if c.1 && p.is_ok c.0
              then ask_version p opened_cb t
              else conn_failed p t)
      connected u i c true h = absurd (cc h)
      connected u i (pg, false) false h = Ends-conn_failed _
      connected u i (pg, true) false h =
          opened (record u { pg = pg; dbcon = true }) (record { inprogress = i; dbcon = refl })
            (p.is_ok pg)
        where
          opened :
              (t : Db p)
              → IsOpen t
              → (b : Bool) → Ends (if b then ask_version p opened_cb t else conn_failed p t)
          opened t h false = Ends-conn_failed t
          opened t h true = Ends-check_version _ _ ((Stays-query_inside _).at t h)

module _ {p : Server} (sbuf stack : Memory) where
  -- With db_connected of main.c as the callback of db_init, db_conn, called while it does not run
  -- already, answers 0 just where there is a connection behind it, and clears `inprogress` on every way
  -- out, whatever the database answers to the queries of the callback.
  pub db_conn-dbcon :
      (s : Db p)
      → s.inprogress ≡ false
      → let r = db_conn p (db_connected p sbuf stack) s in
        (r.1 ≡ not r.0.dbcon) × (r.0.inprogress ≡ false)
  db_conn-dbcon s e =
      let r = Ends-db_conn (db_connected p sbuf stack) (db_connected-IsOpen sbuf stack) s e in
      (r.answer, r.cleared)

-- crypt takes what it answers for a salt: with that for its salt it answers the same again.
module _ {p : Server} (again : (w c h : Bytes) → p.crypt w c ≡ some h → p.crypt w h ≡ some h) where
  -- Where crypt, with an answer of its own for the salt, gives that answer again, and takes the salt
  -- that pass_gen makes: user_ok accepts, for a user with the word that pass_gen makes of a password,
  -- that password, and another one just where crypt makes the same of it.
  pub user_ok-pass_gen :
      (salt : ℕ → ℕ) (word h : Bytes) (s : Db p) (u : User)
      → p.crypt word (salt_text (salt (p.random s.pg).1)) ≡ some h
      → let v : User = record u { pass = (pass_gen salt word s).1 } in
        (user_ok p v word ≡ true)
        × ((other : Bytes) → (user_ok p v other ≡ true) ↔ (p.crypt other h ≡ some h))
  unfolding user_ok pass_ok pass_gen shown
  user_ok-pass_gen salt word h s u e =
      rw e ((accepted word).1 (again word _ h e), λ other. accepted other)
    where
      by_answer :
          (o : Option Bytes)
          → (elim o [ none ↦ false | some cr ↦ same_text h cr ] ≡ true) ↔ (o ≡ some h)
      by_answer none = grind arith
      by_answer (some cr) = grind (arith, same_text_iff h cr)

      accepted :
          (other : Bytes)
          → (elim (p.crypt other h) [ none ↦ false | some cr ↦ same_text h cr ] ≡ true)
            ↔ (p.crypt other h ≡ some h)
      accepted other = by_answer (p.crypt other h)
