-- ===== src/Commands/Sessions.antt =====
-- What a client can reach and gets with its commands, through proto_line of proto.c and proto_cmd.c.
use dudld.Common.{◌<◌, ◌≤◌, true, ◌≡◌, inl, inr, refl, sym, subst, arith, Bytes, List, Option, some}
use dudld.Player.State.{Pipeline}
use dudld.Proto.Dispatch.{ProtState, p_any, p_open, p_user, p_idle, Cmd, Action, proto_line}
use dudld.Proto.Rights.{proto_line-run}
use dudld.Format.Records.{User}
use dudld.Commands.Session.{Database, World, Session}
use dudld.Commands.Users.{perm_of}
use dudld.Commands.Requests.{Request, user, pass, queueadd, queuedel, jump, run}
use dudld.Commands.Served.{handled}
use dudld.Commands.Login.{
  Fits, IsSession, IsAllowed, Served, Handled-Served, cmd_user-Served, cmd_pass-Served,
  queueing-Handled, IsAlive, Keeps-IsSession, cmd_jump-Handled, cmd_jump-Keeps,
}

module _ {g : Pipeline} {d : Database} (w : World g) where
  module _ {D : Type 0} (cmds : List (Cmd D))
      (copies : (x : Bytes) → w.host.strdup x ≡ some x) where
    run-Served :
        (r : Request g) (code : Bytes) (s : Session g d)
        → IsSession s
        → IsAllowed s r
        → IsAlive s r
        → Served s (run cmds w r code s)
    unfolding run
    run-Served (user name) code s (f, c) (inl e) l =
        cmd_user-Served w name code s copies (subst (λ p. Fits d p s.user s.pdata) (sym e) f) c
    run-Served (user name) code s (f, c) (inr e) l = absurd (cc e)
    run-Served (pass word) code s (f, c) (inl e) l =
        let (u, (n, k)) = subst (λ p. Fits d p s.user s.pdata) (sym e) f in
        cmd_pass-Served w word code n s k c
    run-Served (pass word) code s (f, c) (inr e) l = absurd (cc e)
    run-Served (queueadd id) code s i (inl e) l =
        let (x, word, k, ok) = subst (λ p. Fits d p s.user s.pdata) (sym e) i.0 in
        Handled-Served s _ i (queueing-Handled w id code x s k).0
    run-Served (queueadd id) code s i (inr e) l = absurd (cc e)
    run-Served (queuedel id) code s i (inl e) l =
        let (x, word, k, ok) = subst (λ p. Fits d p s.user s.pdata) (sym e) i.0 in
        Handled-Served s _ i (queueing-Handled w id code x s k).1
    run-Served (queuedel id) code s i (inr e) l = absurd (cc e)
    run-Served (jump n) code s i a (l, m) = Handled-Served s _ i (cmd_jump-Handled w n code s l m)
    run-Served r code s i a l = Handled-Served s _ i (handled w cmds r code s refl)

    -- The login stays as it should be, also where a jump ends the program.
    run-IsSession :
        (r : Request g) (code : Bytes) (s : Session g d)
        → IsSession s
        → IsAllowed s r
        → IsSession (run cmds w r code s)
    unfolding run
    run-IsSession (jump n) code s i a = Keeps-IsSession s _ i (cmd_jump-Keeps w n code s)
    run-IsSession r code s i a = (run-Served r code s i a tt).1

    -- What a client can reach with commands that its state allows.
    pub data Reach (s : Session g d) : Session g d → Type 0 where
      start : Reach s s
      step :
          (t : Session g d)
          → Reach s t
          → (r : Request g) → (code : Bytes) → IsAllowed t r
          → Reach s (run cmds w r code t)

    -- Where memory does not run out, whatever commands a client gives, each in a state that allows it,
    -- from a login as it should be on: in the state p_idle its user is one for whom the database
    -- accepted a password, in p_user the name for the password is there, elsewhere it has no user, and
    -- no handler reads the fields of a user that is NULL.
    pub Reach-IsSession : (s t : Session g d) → IsSession s → Reach s t → IsSession t
    Reach-IsSession s _ i start = i
    Reach-IsSession s _ i (step t h r code a) = run-IsSession r code t (Reach-IsSession s t i h) a

Fits-accepted :
    (d : Database) (p : ProtState) (u : Option User) (name : Option Bytes)
    → Fits d p u name
    → 0 < perm_of u
    → (p ≡ p_idle) × ((x : User) × (word : Bytes) × (u ≡ some x) × (d.user_ok x word ≡ true))
unfolding perm_of
Fits-accepted d p_any u name f pos = absurd (cc f)
Fits-accepted d p_open u name f pos = absurd (omega (arith, rw f at pos))
Fits-accepted d p_user u name (f, n) pos = absurd (omega (arith, rw f at pos))
Fits-accepted d p_idle u name f pos = (refl, f)

-- For a client whose login is as it should be, a command that asks for some rights is run only if the
-- client is logged in, as a user for whom the database accepted a password, and whose rights reach
-- those.
pub proto_line-accepted :
    {g : Pipeline} {d : Database} {D : Type 0} (cmds : List (Cmd D)) (line : Bytes) (c : Cmd D)
    (ds : List D) (s : Session g d)
    → IsSession s
    → 0 < c.perm
    → proto_line cmds s.pstate (perm_of s.user) line ≡ Action.run c ds
    → (s.pstate ≡ p_idle)
      × ((x : User) × (word : Bytes) × (s.user ≡ some x)
          × (d.user_ok x word ≡ true)
          × (c.perm ≤ x.right))
unfolding perm_of
proto_line-accepted {d = d} cmds line c ds s (f, k) pos e =
    let (first, le, n) = proto_line-run cmds s.pstate (perm_of s.user) line c ds e in
    let (idle, (x, word, u, ok)) =
      Fits-accepted d s.pstate s.user s.pdata f (omega (arith, le, pos)) in
    (idle, (x, word, u, ok, subst (λ o. c.perm ≤ perm_of o) u le))
