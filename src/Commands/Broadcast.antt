-- ===== src/Commands/Broadcast.antt =====
-- proto_bcast.c and proto_bcast of proto_helper.c: what all clients with some rights are told. A line that
-- is broadcast is kept with those rights.
use dudld.Common.{ℕ, ◌/◌, ◌%◌, ◌^◌, ◌||◌, true, Bytes, [], ◌∷◌, ◌++◌, Option, none, some, codes}
use dudld.Common.Memory.{Memory, c_string}
use dudld.ParseExpr.Print.{expr_fmt}
use dudld.ParseExpr.Text.{print_int}
use dudld.Player.State.{Pipeline, Player, null, live, dangling, touch}
use dudld.Player.State as State
use dudld.Sleep.Timer.{sleep_remain}
use dudld.Proto.Reply.{proto_fmtline}
use dudld.Format.Records.{Peer, Queue, Tag, mkclient, mktrack, mkqueue, mktag}
use dudld.Commands.Session.{Database, World, Session}

-- player_track of player.c: it counts one more user of the track.
unfoldable pub player_track : {g : Pipeline} → Player g → Option State.Track × Player g
player_track p = elim p.curtrack [
  | null ↦ (none, p)
  | live t ↦ (some t, p)
  | dangling t ↦ (some t, touch p)
]

-- t_rights
abbrev pub r_guest : ℕ
r_guest = 1

abbrev pub r_user : ℕ
r_user = 2

abbrev pub r_master : ℕ
r_master = 4

module _ {g : Pipeline} {d : Database} (w : World g) where
  unfoldable pub proto_bcast : ℕ → Bytes → Bytes → Session g d → Session g d
  proto_bcast right code text s =
      let (m, line) = proto_fmtline w.host.strdup w.host.stack true code text in
      let t = record s { out = record s.out { overrun = s.out.overrun || m.outside } } in
      elim line [ none ↦ t | some l ↦ record t { bcasts = s.bcasts ++ (right, l) ∷ [] } ]

  -- A broadcast of a record, if it could be formatted.
  unfoldable pub bcast_record : ℕ → Bytes → Memory × Option Bytes → Session g d → Session g d
  bcast_record right code (m, buf) s =
      let t = record s { out = record s.out { buf = m } } in
      elim buf [ none ↦ t | some b ↦ proto_bcast right code b t ]

  unfoldable pub proto_bcast_login : Session g d → Session g d
  proto_bcast_login s =
      let c : Peer = record { id = s.id; sin_addr = s.sin_addr; user = s.user } in
      bcast_record r_user (codes "630") (mkclient w.host.strdup s.out.buf c) s

  unfoldable pub proto_bcast_logout : Session g d → Session g d
  proto_bcast_logout s =
      let c : Peer = record { id = s.id; sin_addr = s.sin_addr; user = s.user } in
      bcast_record r_user (codes "631") (mkclient w.host.strdup s.out.buf c) s

  unfoldable pub proto_bcast_player_newtrack : Session g d → Session g d
  proto_bcast_player_newtrack s =
      let (track, p) = player_track s.sleep.player in
      let t = record s { sleep = record s.sleep { player = p } } in
      elim track [
        | none ↦ t
        | some x ↦
            bcast_record r_guest (codes "640") (mktrack w.host.strdup s.out.buf (w.record_of x)) t
      ]

  unfoldable pub proto_bcast_player_stop : Session g d → Session g d
  proto_bcast_player_stop = proto_bcast r_guest (codes "641") (codes "stopped")

  unfoldable pub proto_bcast_player_pause : Session g d → Session g d
  proto_bcast_player_pause = proto_bcast r_guest (codes "642") (codes "paused")

  unfoldable pub proto_bcast_player_resume : Session g d → Session g d
  proto_bcast_player_resume = proto_bcast r_guest (codes "643") (codes "resumed")

  unfoldable pub proto_bcast_player_random : Session g d → Session g d
  proto_bcast_player_random s =
      proto_bcast r_guest (codes "646") (print_int s.sleep.player.do_random) s

  -- "%d" of a guint64, as it reads the lower half of one.
  unfoldable pub proto_bcast_player_elapsed : ℕ → Session g d → Session g d
  proto_bcast_player_elapsed elapsed =
      proto_bcast r_guest (codes "647") (print_int (elapsed / 1_000_000_000 % 2 ^ 32))

  unfoldable pub proto_bcast_sleep : Session g d → Session g d
  proto_bcast_sleep s =
      proto_bcast r_guest (codes "651") (print_int (sleep_remain w.time s.sleep)) s

  unfoldable pub proto_bcast_filter : Session g d → Session g d
  proto_bcast_filter s =
      let (db, e) = d.random_filter s.db in
      let t = record s { db = db } in
      elim e [
        | none ↦ proto_bcast r_guest (codes "650") [] t
        | some x ↦
            proto_bcast r_guest (codes "650") (c_string (expr_fmt x w.array 0 1024).0.bytes) t
      ]

  unfoldable pub proto_bcast_queue_fetch : Queue → Session g d → Session g d
  proto_bcast_queue_fetch q s =
      bcast_record r_guest (codes "660") (mkqueue w.host.strdup s.out.buf q) s

  unfoldable pub proto_bcast_queue_add : Queue → Session g d → Session g d
  proto_bcast_queue_add q s =
      bcast_record r_guest (codes "661") (mkqueue w.host.strdup s.out.buf q) s

  unfoldable pub proto_bcast_queue_del : Queue → Session g d → Session g d
  proto_bcast_queue_del q s =
      bcast_record r_guest (codes "662") (mkqueue w.host.strdup s.out.buf q) s

  unfoldable pub proto_bcast_queue_clear : Session g d → Session g d
  proto_bcast_queue_clear = proto_bcast r_guest (codes "663") (codes "queue cleared")

  unfoldable pub proto_bcast_tag_changed : Tag → Session g d → Session g d
  proto_bcast_tag_changed t s =
      bcast_record r_guest (codes "670") (mktag w.host.strdup s.out.buf t) s

  unfoldable pub proto_bcast_tag_del : Tag → Session g d → Session g d
  proto_bcast_tag_del t s = bcast_record r_guest (codes "671") (mktag w.host.strdup s.out.buf t) s
