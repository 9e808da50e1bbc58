-- ===== src/Pgdb/Users.antt =====
-- pgdb/user.c: the users.
use dudld.Common.{
  ℕ, ◌+◌, ◌-◌, ◌*◌, ◌/◌, ◌==◌, ltb, if◌then◌else◌, Bool, false, Bytes, List, [], ◌∷◌, Option, none,
  some, codes, same_text,
}
use dudld.Pgdb.Server.{
  Result, Server, Db, M, pure, ◌>>=◌, ◌>>◌, Part, sql, int, escaped, raw, pq_clear,
}
use dudld.Pgdb.Connection.{db_query, is_command}
use dudld.Pgdb.Shapes.{minus_one, select, command, iterate, select_id, nextval, with_id}
use dudld.Format.Records.{User}
use dudld.Pgdb.Rows.{user_convert}

-- A digit of "%02x".
unfoldable pub hex_digit : ℕ → ℕ
hex_digit n = if ltb n 10 then b'0' + n else b'a' + (n - 10)

-- "%02x" of a number below 256.
unfoldable pub salt_text : ℕ → Bytes
salt_text n = hex_digit (n / 16) ∷ hex_digit (n - 16 * (n / 16)) ∷ []

unfoldable pub pass_ok : Server → Bytes → Bytes → Bool
pass_ok p cpass pass = elim (p.crypt pass cpass) [ none ↦ false | some cr ↦ same_text cpass cr ]

-- What "%s" makes of an answer of crypt; of NULL, what glibc makes.
unfoldable pub shown : Option Bytes → Bytes
shown none = codes "(null)"
shown (some cr) = cr

unfoldable pub user_ok : Server → User → Bytes → Bool
user_ok p u pass = pass_ok p u.pass pass

-- `salt` is what the program computes of random() with floating point numbers, 255 at most.
unfoldable pub pass_gen : {p : Server} → (ℕ → ℕ) → Bytes → M p Bytes
pass_gen {p} salt pass s =
    let (pg, r) = p.random s.pg in (record s { pg = pg }, shown (p.crypt pass (salt_text (salt r))))

module _ (p : Server) (opened_cb : Db p → Db p) where
  -- The first row where there is one row.
  unfoldable pub one_user : Result → M p (Option User)
  one_user r = pure (if r.ntuples == 1 then user_convert p r 0 else none)

  unfoldable pub user_get : ℕ → M p (Option User)
  user_get uid =
      select p opened_cb none (sql (codes "SELECT * FROM mserv_user WHERE id = ") ∷ int uid ∷ [])
        one_user

  unfoldable pub user_getn : Bytes → M p (Option User)
  user_getn name =
      select p opened_cb none
        (sql (codes "SELECT * FROM mserv_user WHERE name = '")
          ∷ escaped name
          ∷ sql (codes "'")
          ∷ [])
        one_user

  unfoldable pub user_id : Bytes → M p ℕ
  user_id name =
      select_id p opened_cb (
        sql (codes "SELECT id FROM mserv_user WHERE name = '")
        ∷ escaped name
        ∷ sql (codes "'")
        ∷ [])

  unfoldable pub users_list : M p (List User)
  users_list =
      iterate p opened_cb (λ r tup. pure (user_convert p r tup))
        (sql (codes "SELECT * FROM mserv_user ORDER BY LOWER(name)") ∷ [])

  unfoldable pub user_add : (ℕ → ℕ) → Bytes → ℕ → Bytes → M p ℕ
  user_add salt name right pass =
      nextval p opened_cb (codes "mserv_user_id_seq")
      >>= with_id p opened_cb λ uid. do
        word ← pass_gen salt pass
        command p opened_cb minus_one uid (
            sql (codes "INSERT INTO mserv_user( id, name, lev, pass ) VALUES( ")
            ∷ int uid
            ∷ sql (codes ", '")
            ∷ raw name
            ∷ sql (codes "', ")
            ∷ int right
            ∷ sql (codes ", '")
            ∷ raw word
            ∷ sql (codes "' )")
            ∷ [])

  -- A command on a user; PQcmdTuples is compared with NULL.
  unfoldable pub user_command : List Part → M p ℕ
  user_command q = do
    res ← db_query p opened_cb q
    pq_clear res
        >> pure (elim res [
          | none ↦ minus_one
          | some r ↦ elim r.cmd_tuples [
            | none ↦ minus_one
            | some n ↦ if is_command (some r) then 0 else minus_one
          ]
        ])

  unfoldable pub user_setright : ℕ → ℕ → M p ℕ
  user_setright userid right = user_command (
      sql (codes "UPDATE mserv_user SET lev = ")
      ∷ int right
      ∷ sql (codes " WHERE id = ")
      ∷ int userid
      ∷ [])

  unfoldable pub user_setpass : (ℕ → ℕ) → ℕ → Bytes → M p ℕ
  user_setpass salt userid newpass = do
    pass ← pass_gen salt newpass
    user_command (
        sql (codes "UPDATE mserv_user SET pass = '")
        ∷ raw pass
        ∷ sql (codes "' WHERE id = ")
        ∷ int userid
        ∷ [])

  unfoldable pub user_del : ℕ → M p ℕ
  user_del uid = user_command (sql (codes "DELETE FROM mserv_user WHERE id = ") ∷ int uid ∷ [])
