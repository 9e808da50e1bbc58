-- ===== src/Commands/Answers.antt =====
-- What the handlers of proto_cmd.c do for the client, whatever the database and the player answer.
use dudld.Common.{
  ℕ, Bool, true, false, ◌≡◌, refl, subst, if◌then◌else◌, Bytes, List, Option, none, some,
}
use dudld.Player.State.{Pipeline, Player, PlayError}
use dudld.Proto.Reply.{Out, proto_rlast}
use dudld.Proto.Answers.{Answered, proto_rlast-Answered, proto_player_reply-Answered}
use dudld.Commands.Session.{Database, World, Session}
use dudld.Commands.Handlers.{
  say, reply_list, reply_record, reply_number, reply_done, reply_player, set_player,
}

module _ {g : Pipeline} {d : Database} where
  -- The login of the client is left as it is.
  pub record Keeps (s t : Session g d) : Type 0 where
    pub pstate : t.pstate ≡ s.pstate
    pub user : t.user ≡ s.user
    pub pdata : t.pdata ≡ s.pdata
    pub crashed : t.crashed ≡ s.crashed

  -- The client is answered, and its login left as it is.
  pub record Handled (s t : Session g d) : Type 0 where
    pub answered : Answered s.out t.out
    pub keeps : Keeps s t

module _ {g : Pipeline} {d : Database} (w : World g) where
  -- An answer in a session `t` in which the client was not answered yet.
  pub say-Handled :
      (code text : Bytes) (s t : Session g d)
      → Keeps s t
      → t.out ≡ s.out
      → Handled s (say w code text t)
  unfolding say
  say-Handled code text s t k e = record {
    answered =
        subst (λ o. Answered o (proto_rlast w.host code text t.out).1) e
          (proto_rlast-Answered w.host code text t.out);
    keeps = record { pstate = k.pstate; user = k.user; pdata = k.pdata; crashed = k.crashed };
  }

  pub reply_list-Handled :
      {X : Type 0} (dump : Bytes → List X → Out → Out) (query : d.S → d.S × List X) (code : Bytes)
      (s : Session g d)
      → ((c : Bytes) (ts : List X) (o : Out) → Answered o (dump c ts o))
      → Handled s (reply_list w dump query code s)
  unfolding reply_list
  reply_list-Handled dump query code s h = record {
    answered = h code (query s.db).1 s.out;
    keeps = record { pstate = refl; user = refl; pdata = refl; crashed = refl };
  }

  -- An answer behind a query.
  pub asked-Handled :
      (code text : Bytes) (s : Session g d) (x : d.S)
      → Handled s (say w code text (record s { db = x }))
  asked-Handled code text s x =
      say-Handled code text s (record s { db = x })
        (record { pstate = refl; user = refl; pdata = refl; crashed = refl }) refl

  pub reply_record-Handled :
      {X : Type 0} (dump : Bytes → X → Out → Out) (query : d.S → d.S × Option X)
      (error text code : Bytes) (s : Session g d)
      → ((c : Bytes) (t : X) (o : Out) → Answered o (dump c t o))
      → Handled s (reply_record w dump query error text code s)
  unfolding reply_record
  reply_record-Handled {X = X} dump query error text code s h = answer (query s.db).1
    where
      db : d.S
      db = (query s.db).0

      answer :
          (o : Option X)
          → Handled s (elim o [
            | none ↦ say w error text (record s { db = db })
            | some x ↦ record s { db = db; out = dump code x s.out }
          ])
      answer none = asked-Handled error text s db
      answer (some x) = record {
        answered = h code x s.out;
        keeps = record { pstate = refl; user = refl; pdata = refl; crashed = refl };
      }

  -- Two answers, one of which is given.
  either-Handled :
      (b : Bool) (e t code text : Bytes) (s : Session g d) (x : d.S)
      → Handled s
          (if b then say w e t (record s { db = x }) else say w code text (record s { db = x }))
  either-Handled true e t code text s x = asked-Handled e t s x
  either-Handled false e t code text s x = asked-Handled code text s x

  pub reply_number-Handled :
      (fails : ℕ → Bool) (query : d.S → d.S × ℕ) (error text code : Bytes) (s : Session g d)
      → Handled s (reply_number w fails query error text code s)
  unfolding reply_number
  reply_number-Handled fails query error text code s =
      either-Handled (fails (query s.db).1) error text code _ s (query s.db).0

  pub reply_done-Handled :
      (fails : ℕ → Bool) (query : d.S → d.S × ℕ) (error text done code : Bytes) (s : Session g d)
      → Handled s (reply_done w fails query error text done code s)
  unfolding reply_done
  reply_done-Handled fails query error text done code s =
      either-Handled (fails (query s.db).1) error text code done s (query s.db).0

  pub set_player-Handled :
      (ask : Player g → PlayError × Player g) (text code : Bytes) (s : Session g d)
      → Handled s (set_player w ask text code s)
  unfolding set_player
  set_player-Handled ask text code s =
      say-Handled code text s _
        (record { pstate = refl; user = refl; pdata = refl; crashed = refl }) refl

  pub reply_player-Handled :
      (ask : Player g → PlayError × Player g) (text code : Bytes) (s : Session g d)
      → Handled s (reply_player w ask text code s)
  unfolding reply_player
  reply_player-Handled ask text code s = record {
    answered = proto_player_reply-Answered w.host w.error _ code text s.out;
    keeps = record { pstate = refl; user = refl; pdata = refl; crashed = refl };
  }
