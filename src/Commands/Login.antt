-- ===== src/Commands/Login.antt =====
-- The login of a client, and what it gets for its commands, through proto_cmd.c.
use dudld.Common.{
  ℕ, ◌==◌, ◌||◌, Bool, true, false, ◌≡◌, ◌⊎◌, inl, inr, refl, ◌∙◌, subst, arith, Bool-cases,
  if◌then◌else◌, Bytes, [], ◌∷◌, ◌++◌, Option, none, some, codes,
}
use dudld.Common.Memory.{Memory}
use dudld.Player.State.{Pipeline}
use dudld.Proto.Dispatch.{ProtState, p_any, p_open, p_user, p_idle}
use dudld.Proto.Reply.{Out, proto_fmtline, proto_rlast}
use dudld.Proto.Answers.{Answered, proto_rlast-Answered}
use dudld.Format.Records.{User}
use dudld.Commands.Session.{Database, World, Session, is_nonzero, is_minus_one}
use dudld.Commands.Broadcast.{proto_bcast, bcast_record, proto_bcast_login, r_user, r_master}
use dudld.Commands.Handlers.{say, reply_number, reply_done, reply_player}
use dudld.Commands.Users.{cmd_user, cmd_pass, check_user, login_failed, logged_in}
use dudld.Commands.Tags.{cmd_queueadd, cmd_queuedel}
use dudld.Player.Control.{player_jump}
use dudld.Player.Crash.{MayJump, player_jump-alive}
use dudld.Commands.Playing.{cmd_jump}
use dudld.Commands.Requests.{Request, context, jump}
use dudld.Commands.Answers.{
  Keeps, Handled, reply_number-Handled, reply_done-Handled, reply_player-Handled,
}

-- What a state of the protocol says of the user and of the name that was sent: in p_idle, that the
-- database accepted a password for the user; in p_user, that there is a name; elsewhere, that no user
-- is set.
abbrev pub Fits : Database → ProtState → Option User → Option Bytes → Type 0
Fits d p_any u name = true ≡ false
Fits d p_open u name = u ≡ none
Fits d p_user u name = (u ≡ none) × ((n : Bytes) × (name ≡ some n))
Fits d p_idle u name = (x : User) × (word : Bytes) × (u ≡ some x) × (d.user_ok x word ≡ true)

module _ {g : Pipeline} {d : Database} where
  -- A login as it should be, and no user that is NULL was read.
  abbrev pub IsSession : Session g d → Type 0
  IsSession s = Fits d s.pstate s.user s.pdata × (s.crashed ≡ false)

  -- proto_line lets a command through in the state that it is for.
  abbrev pub IsAllowed : Session g d → Request g → Type 0
  IsAllowed s r = (context r ≡ s.pstate) ⊎ (context r ≡ p_any)

  -- The client is answered, and its login is as it should be.
  abbrev pub Served : Session g d → Session g d → Type 0
  Served s t = Answered s.out t.out × IsSession t

  pub Keeps-IsSession : (s t : Session g d) → IsSession s → Keeps s t → IsSession t
  Keeps-IsSession s t (f, c) k = (rw (k.pstate, k.user, k.pdata) f, k.crashed ∙ c)

  -- A jump finds a track, or a player that is stopped, in a program that runs.
  abbrev pub IsAlive : Session g d → Request g → Type 0
  IsAlive s (jump n) = (s.sleep.player.crashed ≡ false) × MayJump s.sleep.player
  IsAlive s _ = Unit

  pub Handled-Served : (s t : Session g d) → IsSession s → Handled s t → Served s t
  Handled-Served s t i h = (h.answered, Keeps-IsSession s t i h.keeps)

  -- The client was sent nothing, and its login is left as it is.
  record Quiet (s t : Session g d) : Type 0 where
    sent : t.out.sent ≡ s.out.sent
    failed : t.out.failed ≡ s.out.failed
    keeps : Keeps s t

  Answered-Quiet : (o : Out) (s t : Session g d) → Answered o s.out → Quiet s t → Answered o t.out
  Answered-Quiet o s t (inl f) q = inl (q.failed ∙ f)
  Answered-Quiet o s t (inr (ls, a, u)) q = inr (ls, a, q.sent ∙ u)

  -- A broadcast line is kept, or there is none.
  announced :
      (right : ℕ) (line : Option Bytes) (s : Session g d) (over : Bool)
      → let t = record s { out = record s.out { overrun = over } } in
        Quiet s
          (elim line [ none ↦ t | some l ↦ record t { bcasts = s.bcasts ++ (right, l) ∷ [] } ])
  announced right none s over = record {
    sent = refl;
    failed = refl;
    keeps = record { pstate = refl; user = refl; pdata = refl; crashed = refl };
  }
  announced right (some l) s over = record {
    sent = refl;
    failed = refl;
    keeps = record { pstate = refl; user = refl; pdata = refl; crashed = refl };
  }

module _ {g : Pipeline} {d : Database} (w : World g) where
  proto_bcast-Quiet :
      (right : ℕ) (code text : Bytes) (s : Session g d) → Quiet s (proto_bcast w right code text s)
  unfolding proto_bcast
  proto_bcast-Quiet right code text s =
      let (m, line) = proto_fmtline w.host.strdup w.host.stack true code text in
      announced right line s (s.out.overrun || m.outside)

  bcast_record-Quiet :
      (right : ℕ) (code : Bytes) (r : Memory × Option Bytes) (s : Session g d)
      → Quiet s (bcast_record w right code r s)
  unfolding bcast_record
  bcast_record-Quiet right code (m, none) s = record {
    sent = refl;
    failed = refl;
    keeps = record { pstate = refl; user = refl; pdata = refl; crashed = refl };
  }
  bcast_record-Quiet right code (m, some b) s =
      let t = record s { out = record s.out { buf = m } } in
      let q = proto_bcast-Quiet right code b t in
      record {
        sent = q.sent;
        failed = q.failed;
        keeps = record {
          pstate = q.keeps.pstate;
          user = q.keeps.user;
          pdata = q.keeps.pdata;
          crashed = q.keeps.crashed;
        };
      }

  logged_in-Served :
      (u : User) (word code : Bytes) (s t : Session g d)
      → t.out ≡ s.out
      → t.crashed ≡ false
      → d.user_ok u word ≡ true
      → Served s (logged_in w u code t)
  unfolding logged_in proto_bcast_login
  logged_in-Served u word code s t e c ok =
      let x =
        say w code (codes "successfully logged in") (record t { user = some u; pstate = p_idle }) in
      let a : Answered s.out x.out =
        unfold say in
        subst (λ o. Answered o (proto_rlast w.host code (codes "successfully logged in") t.out).1) e
          (proto_rlast-Answered w.host code (codes "successfully logged in") t.out) in
      let q : Quiet x (proto_bcast_login w x) = bcast_record-Quiet r_user (codes "630") _ x in
      (
        Answered-Quiet s.out x _ a q,
        (
          rw (q.keeps.pstate, q.keeps.user) (unfold say in (u, word, refl, ok)),
          q.keeps.crashed ∙ (unfold say in c),
        ),
      )

  login_failed-Served :
      (s t : Session g d) → t.out ≡ s.out → t.crashed ≡ false → Served s (login_failed w t)
  unfolding login_failed say
  login_failed-Served s t e c = (
    subst (λ o. Answered o (proto_rlast w.host (codes "501") (codes "login failed") t.out).1) e
        (proto_rlast-Answered w.host (codes "501") (codes "login failed") t.out),
    (refl, c),
  )

  check_user-Served :
      (word code : Bytes) (o : Option User) (s t : Session g d)
      → t.out ≡ s.out
      → t.crashed ≡ false
      → Served s (check_user w word o code t)
  unfolding check_user
  check_user-Served word code none s t e c = login_failed-Served s t e c
  check_user-Served word code (some u) s t e c = elim (Bool-cases (d.user_ok u word)) [
    | inl ok ↦ rw ok (logged_in-Served u word code s t e c ok)
    | inr bad ↦ rw bad (login_failed-Served s t e c)
  ]

  cmd_pass-check_user :
      (word code name : Bytes) (s : Session g d)
      → s.pdata ≡ some name
      → cmd_pass w word code s
        ≡ check_user w word
            (d.user_getn name s.db).1
            code
            (record s { db = (d.user_getn name s.db).0 })
  unfolding cmd_pass
  cmd_pass-check_user word code name s e = ground (arith, e)

  pub cmd_pass-Served :
      (word code name : Bytes) (s : Session g d)
      → s.pdata ≡ some name
      → s.crashed ≡ false
      → Served s (cmd_pass w word code s)
  cmd_pass-Served word code name s e c =
      rw (cmd_pass-check_user word code name s e) (check_user-Served word code _ s _ refl c)

  pub cmd_user-Served :
      (name code : Bytes) (s : Session g d)
      → ((x : Bytes) → w.host.strdup x ≡ some x)
      → s.user ≡ none
      → s.crashed ≡ false
      → Served s (cmd_user w name code s)
  unfolding cmd_user say
  cmd_user-Served name code s copies u c =
      (proto_rlast-Answered w.host _ _ s.out, ((u, (name, copies name)), c))

  cmd_queueadd-reply_number :
      (id : ℕ) (code : Bytes) (u : User) (s : Session g d)
      → s.user ≡ some u
      → cmd_queueadd w id code s
        ≡ reply_number w is_minus_one
            (d.queue_add id u.id)
            (codes "561")
            (codes "failed to add track to queue")
            code
            s
  unfolding cmd_queueadd
  cmd_queueadd-reply_number id code u s e = ground (arith, e)

  cmd_queuedel-reply_done :
      (id : ℕ) (code : Bytes) (u : User) (s : Session g d)
      → s.user ≡ some u
      → cmd_queuedel w id code s
        ≡ reply_done w is_nonzero
            (d.queue_del id (if u.right == r_master then 0 else u.id))
            (codes "562")
            (codes "failed to delete from queue")
            (codes "track removed from queue")
            code
            s
  unfolding cmd_queuedel
  cmd_queuedel-reply_done id code u s e = ground (arith, e)

  pub queueing-Handled :
      (id : ℕ) (code : Bytes) (u : User) (s : Session g d)
      → s.user ≡ some u
      → Handled s (cmd_queueadd w id code s) × Handled s (cmd_queuedel w id code s)
  queueing-Handled id code u s e = (
    rw (cmd_queueadd-reply_number id code u s e) (reply_number-Handled w _ _ _ _ code s),
    rw (cmd_queuedel-reply_done id code u s e) (reply_done-Handled w _ _ _ _ _ code s),
  )

  pub cmd_jump-Handled :
      (n : ℕ) (code : Bytes) (s : Session g d)
      → s.sleep.player.crashed ≡ false
      → MayJump s.sleep.player
      → Handled s (cmd_jump w n code s)
  unfolding cmd_jump reply_player
  cmd_jump-Handled n code s c h =
      rw (player_jump-alive n s.sleep.player h ∙ c)
        (reply_player-Handled w (player_jump n) _ code s)

  pub cmd_jump-Keeps : (n : ℕ) (code : Bytes) (s : Session g d) → Keeps s (cmd_jump w n code s)
  unfolding cmd_jump reply_player
  cmd_jump-Keeps n code s =
      by_crash (player_jump n s.sleep.player).1.crashed _ _
        (record { pstate = refl; user = refl; pdata = refl; crashed = refl })
        (record { pstate = refl; user = refl; pdata = refl; crashed = refl })
    where
      by_crash :
          (b : Bool) (t u : Session g d) → Keeps s t → Keeps s u → Keeps s (if b then t else u)
      by_crash true t u h k = h
      by_crash false t u h k = k
