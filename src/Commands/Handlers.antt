-- ===== src/Commands/Handlers.antt =====
-- proto_cmd.c: the shapes that its handlers have.
use dudld.Common.{ℕ, if◌then◌else◌, Bool, Bytes, List, Option, none, some}
use dudld.ParseExpr.Text.{print_int}
use dudld.Player.State.{Pipeline, Player, PlayError}
use dudld.Proto.Reply.{Out, proto_rlast, proto_player_reply}
use dudld.Commands.Session.{Database, World, Session}

-- A handler, given the code of its command.
abbrev pub Handler : Pipeline → Database → Type 0
Handler g d = Bytes → Session g d → Session g d

module _ {g : Pipeline} {d : Database} (w : World g) where
  -- proto_rlast, whose answer no handler reads.
  unfoldable pub say : Bytes → Bytes → Session g d → Session g d
  say code text s = record s { out = (proto_rlast w.host code text s.out).1 }

  -- All records of a query.
  unfoldable pub reply_list :
      {X : Type 0} → (Bytes → List X → Out → Out) → (d.S → d.S × List X) → Handler g d
  reply_list dump query code s =
      let (db, it) = query s.db in record s { db = db; out = dump code it s.out }

  -- One record, or an error where there is none.
  unfoldable pub reply_record :
      {X : Type 0} → (Bytes → X → Out → Out) → (d.S → d.S × Option X) → Bytes → Bytes → Handler g d
  reply_record dump query error text code s =
      let (db, o) = query s.db in
      let t = record s { db = db } in
      elim o [ none ↦ say error text t | some x ↦ record t { out = dump code x s.out } ]

  -- A number, or an error where the test on it holds.
  unfoldable pub reply_number : (ℕ → Bool) → (d.S → d.S × ℕ) → Bytes → Bytes → Handler g d
  reply_number fails query error text code s =
      let (db, r) = query s.db in
      let t = record s { db = db } in if fails r then say error text t else say code (print_int r) t

  -- A text, or an error where the test on the answer holds.
  unfoldable pub reply_done : (ℕ → Bool) → (d.S → d.S × ℕ) → Bytes → Bytes → Bytes → Handler g d
  reply_done fails query error text done code s =
      let (db, r) = query s.db in
      let t = record s { db = db } in if fails r then say error text t else say code done t

  -- What the player is asked for, and its answer.
  unfoldable pub reply_player : (Player g → PlayError × Player g) → Bytes → Handler g d
  reply_player ask text code s =
      let (e, p) = ask s.sleep.player in
      record s {
        sleep = record s.sleep { player = p };
        out = proto_player_reply w.host w.error e code text s.out;
      }

  -- What the player is asked for, its answer not read.
  unfoldable pub set_player : (Player g → PlayError × Player g) → Bytes → Handler g d
  set_player ask text code s =
      let (e, p) = ask s.sleep.player in
      say code text (record s { sleep = record s.sleep { player = p } })
