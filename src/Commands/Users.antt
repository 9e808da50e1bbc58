-- ===== src/Commands/Users.antt =====
-- proto_cmd.c: the handlers on connections and users.
use dudld.Common.{
  ℕ, not, ltb, ◌&&◌, ◌||◌, ◌==◌, if◌then◌else◌, true, Bool, Bytes, List, [], ◌∷◌, Option, none,
  some, codes,
}
use dudld.Player.State.{Pipeline}
use dudld.Proto.Dispatch.{p_any, p_open, p_user, p_idle, ProtState, state_code, Cmd}
use dudld.Proto.Reply.{Host, Out, proto_rline}
use dudld.Format.Records.{User}
use dudld.Format.Dump.{dump_clients, dump_users, dump_user}
use dudld.Commands.Session.{Database, World, Session, is_negative}
use dudld.Commands.Broadcast.{proto_bcast_login}
use dudld.Commands.Handlers.{Handler, say, reply_list, reply_record, reply_number, reply_done}

-- `client->user ? client->user->right : r_any`
unfoldable pub perm_of : Option User → ℕ
perm_of none = 0
perm_of (some u) = u.right

-- The commands that cmd_help passes over.
unfoldable pub hidden : {D : Type 0} → ProtState → ℕ → Cmd D → Bool
hidden state perm c =
    (not (state_code c.context == state_code p_any)
      && not (state_code c.context == state_code state))
    || ltb perm c.perm

-- The loop of cmd_help: the commands for the state and the rights of the client.
unfoldable pub help_loop : {D : Type 0} → Host → Bytes → ProtState → ℕ → List (Cmd D) → Out → Out
help_loop h code state perm [] o = o
help_loop h code state perm (c ∷ cs) o =
    let named = help_loop h code state perm cs (proto_rline h code c.name o).1 in
    let passed = help_loop h code state perm cs o in if hidden state perm c then passed else named

module _ {g : Pipeline} {d : Database} (w : World g) where
  unfoldable pub cmd_quit : Handler g d
  cmd_quit code s = record (say w code (codes "bye") s) { closed = true }

  unfoldable pub cmd_user : Bytes → Handler g d
  cmd_user user code s =
      say w code (codes "user ok, use PASS for password")
        (record s { pdata = w.host.strdup user; pstate = p_user })

  -- From `clean1` on.
  unfoldable pub login_failed : Session g d → Session g d
  login_failed s =
      record (say w (codes "501") (codes "login failed")
        (record s { user = none; pstate = p_open })) { pdata = none }

  unfoldable pub logged_in : User → Handler g d
  logged_in u code s =
      let t = record s { user = some u; pstate = p_idle } in
      record (proto_bcast_login w (say w code (codes "successfully logged in") t)) { pdata = none }

  -- With the user that user_getn found, or none.
  unfoldable pub check_user : Bytes → Option User → Handler g d
  check_user pass none code s = login_failed s
  check_user pass (some u) code s = if d.user_ok u pass then logged_in u code s else login_failed s

  -- user_getn reads its argument, so that it must not be NULL.
  unfoldable pub cmd_pass : Bytes → Handler g d
  cmd_pass pass code s = elim s.pdata [
    | none ↦ record s { crashed = true }
    | some name ↦
        let (db, o) = d.user_getn name s.db in check_user pass o code (record s { db = db })
  ]

  unfoldable pub cmd_clientlist : Handler g d
  cmd_clientlist code s = record s { out = dump_clients w.host code w.clients s.out }

  unfoldable pub cmd_userlist : Handler g d
  cmd_userlist = reply_list w (dump_users w.host) d.users_list

  unfoldable pub cmd_userget : ℕ → Handler g d
  cmd_userget id =
      reply_record w (λ code u. dump_user w.host code (some u)) (d.user_get id) (codes "501")
        (codes "user not found")

  unfoldable pub cmd_user2id : Bytes → Handler g d
  cmd_user2id user =
      reply_number w is_negative (d.user_id user) (codes "501") (codes "no such user")

  unfoldable pub cmd_useradd : Bytes → Handler g d
  cmd_useradd user =
      reply_number w is_negative (d.user_add user 1 []) (codes "530") (codes "failed")

  unfoldable pub cmd_usersetpass : ℕ → Bytes → Handler g d
  cmd_usersetpass id pass =
      reply_done w is_negative (d.user_setpass id pass) (codes "530") (codes "failed")
        (codes "password changed")

  unfoldable pub cmd_usersetright : ℕ → ℕ → Handler g d
  cmd_usersetright id right =
      reply_done w is_negative (d.user_setright id right) (codes "530") (codes "failed")
        (codes "right changed")

  unfoldable pub cmd_userdel : ℕ → Handler g d
  cmd_userdel id =
      reply_done w is_negative (d.user_del id) (codes "530") (codes "failed") (codes "deleted")

  unfoldable pub cmd_help : {D : Type 0} → List (Cmd D) → Handler g d
  cmd_help cmds code s =
      say w code [] (record s { out = help_loop w.host code s.pstate (perm_of s.user) cmds s.out })
