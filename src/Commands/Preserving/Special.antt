-- ===== src/Commands/Preserving/Special.antt =====
-- The handlers of proto_cmd.c that do not have one of the shapes of Handlers keep what the database keeps.
use dudld.Common.{
  ℕ, Bytes, List, [], ◌∷◌, Option, none, some, ◌++◌, Bool, true, false, if◌then◌else◌, ◌==◌,
}
use dudld.ParseExpr.Syntax.{Expr}
use dudld.ParseExpr.Parser.{Parsed, parsed, failed, gave_up, expr_parse_str}
use dudld.Player.State.{Pipeline}
use dudld.Proto.Reply.{proto_fmtline}
use dudld.Format.Records.{User}
use dudld.Commands.Session.{Database, World, Session}
use dudld.Common.{codes}
use dudld.Common.Memory.{Memory, c_string}
use dudld.Player.State.{Track}
use dudld.Format.Dump.{dump_track}
use dudld.ParseExpr.Print.{expr_fmt}
use dudld.Commands.Session.{is_nonzero, is_minus_one}
use dudld.Commands.Broadcast.{proto_bcast, bcast_record, proto_bcast_login, player_track, r_master}
use dudld.Commands.Users.{login_failed, logged_in, check_user}
use dudld.Commands.Tracks.{bad_filter}
use dudld.Commands.Handlers.{say, reply_number, reply_done}
use dudld.Commands.Users.{cmd_pass}
use dudld.Commands.Playing.{cmd_curtrack}
use dudld.Commands.Tracks.{cmd_filter, cmd_filterset, cmd_tracksearchf}
use dudld.Commands.Tags.{cmd_queueadd, cmd_queuedel}
use dudld.Commands.Albums.{cmd_sfiltersetfilter}
use dudld.Commands.Preserving.{Preserves, list-P, number-P, done-P}

module _ {g : Pipeline} {d : Database} (w : World g) (P : d.S → Type 0) where
  pub curtrack-P : (code : Bytes) (s : Session g d) → P s.db → P (cmd_curtrack w code s).db
  unfolding cmd_curtrack say
  curtrack-P code s h = found (player_track s.sleep.player).0
    where
      found :
          (o : Option Track)
          → let t : Session g d = record s {
            sleep = record s.sleep { player = (player_track s.sleep.player).1 };
          } in
            let u : Session g d = elim o [
              | none ↦ say w (codes "541") (codes "nothing playing (maybe in a gap?)") t
              | some x ↦ record t { out = dump_track w.host code (w.record_of x) s.out }
            ] in
            P u.db
      found none = h
      found (some x) = h

  line-P :
      (o : Option Bytes) (all : Bytes → List (ℕ × Bytes)) (t : Session g d)
      → P t.db
      → P (elim o as (λ _. Session g d) [ none ↦ t | some l ↦ record t { bcasts = all l } ]).db
  line-P none all t h = h
  line-P (some l) all t h = h

  told-P :
      (right : ℕ) (code : Bytes) (m : Memory) (o : Option Bytes) (s : Session g d)
      → P s.db
      → P (bcast_record w right code (m, o) s).db
  unfolding bcast_record proto_bcast
  told-P right code m none s h = h
  told-P right code m (some x) s h =
      line-P (proto_fmtline w.host.strdup w.host.stack true code x).1
        (λ l. s.bcasts ++ (right, l) ∷ []) _ h

  pub pass-P :
      {Name : Bytes → Type 0}
      → Preserves d Name P
      → (word code : Bytes) (s : Session g d) → P s.db
      → P (cmd_pass w word code s).db
  unfolding cmd_pass
  pass-P p word code s h = given s.pdata
    where
      checked :
          (b : Bool) (u : User) (t : Session g d)
          → P t.db
          → P (if b then logged_in w u code t else login_failed w t).db
      checked true u t k = unfold logged_in say proto_bcast_login in told-P _ _ _ _ _ k
      checked false u t k = unfold login_failed say in k

      found : (o : Option User) (t : Session g d) → P t.db → P (check_user w word o code t).db
      found none t k = unfold check_user login_failed say in k
      found (some u) t k = unfold check_user in checked (d.user_ok u word) u t k

      given :
          (o : Option Bytes)
          → let t : Session g d = elim o [
            | none ↦ record s { crashed = true }
            | some name ↦
                let (db, o) = d.user_getn name s.db in
                check_user w word o code (record s { db = db })
          ] in
            P t.db
      given none = h
      given (some name) = found _ _ (p.user_getn name s.db h)

  pub queueadd-P :
      {Name : Bytes → Type 0}
      → Preserves d Name P
      → (id : ℕ) (code : Bytes) (s : Session g d) → P s.db
      → P (cmd_queueadd w id code s).db
  unfolding cmd_queueadd
  queueadd-P p id code s h = by_user s.user
    where
      by_user :
          (o : Option User)
          → let t : Session g d = elim o [
            | none ↦ record s { crashed = true }
            | some u ↦
                reply_number w is_minus_one
                  (d.queue_add id u.id)
                  (codes "561")
                  (codes "failed to add track to queue")
                  code
                  s
          ] in
            P t.db
      by_user none = h
      by_user (some u) = number-P w P _ _ _ _ code s (p.queue_add id u.id s.db h)

  pub queuedel-P :
      {Name : Bytes → Type 0}
      → Preserves d Name P
      → (id : ℕ) (code : Bytes) (s : Session g d) → P s.db
      → P (cmd_queuedel w id code s).db
  unfolding cmd_queuedel
  queuedel-P p id code s h = by_user s.user
    where
      by_user :
          (o : Option User)
          → let t : Session g d = elim o [
            | none ↦ record s { crashed = true }
            | some u ↦
                let uid : ℕ = if u.right == r_master then 0 else u.id in
                reply_done w is_nonzero
                  (d.queue_del id uid)
                  (codes "562")
                  (codes "failed to delete from queue")
                  (codes "track removed from queue")
                  code
                  s
          ] in
            P t.db
      by_user none = h
      by_user (some u) = done-P w P _ _ _ _ _ code s (p.queue_del id _ s.db h)

  pub filter-P :
      {Name : Bytes → Type 0}
      → Preserves d Name P
      → (code : Bytes) (s : Session g d) → P s.db
      → P (cmd_filter w code s).db
  unfolding cmd_filter say
  filter-P p code s h = found (d.random_filter s.db).1
    where
      found :
          (o : Option Expr)
          → let t : Session g d = record s { db = (d.random_filter s.db).0 } in
            let u : Session g d = elim o [
              | none ↦ say w code [] t
              | some x ↦ say w code (c_string (expr_fmt x w.array 0 1024).0.bytes) t
            ] in
            P u.db
      found none = p.random_filter s.db h
      found (some x) = p.random_filter s.db h

  -- What a handler does with a filter that a client sends.
  parsed-P :
      (o : Parsed) (f : Expr → Session g d) (s : Session g d)
      → ((e : Expr) → P (f e).db)
      → P s.db
      → let t : Session g d = elim o [
        | parsed e ↦ f e
        | failed m pos ↦ bad_filter w m pos s
        | gave_up ↦ s
      ] in
        P t.db
  parsed-P (parsed e) f s k h = k e
  parsed-P (failed m pos) f s k h = unfold bad_filter say in h
  parsed-P gave_up f s k h = h

  pub filterset-P :
      {Name : Bytes → Type 0}
      → Preserves d Name P
      → (text code : Bytes) (s : Session g d) → P s.db
      → P (cmd_filterset w text code s).db
  unfolding cmd_filterset
  filterset-P p text code s h =
      parsed-P (expr_parse_str text) _ s
        (λ e. done-P w P _ _ _ _ _ code s (p.random_setfilter e s.db h)) h

  pub tracksearchf-P :
      {Name : Bytes → Type 0}
      → Preserves d Name P
      → (text code : Bytes) (s : Session g d) → P s.db
      → P (cmd_tracksearchf w text code s).db
  unfolding cmd_tracksearchf
  tracksearchf-P p text code s h =
      parsed-P (expr_parse_str text) _ s (λ e. list-P w P _ _ code s (p.tracks_searchf e s.db h)) h

  pub sfiltersetfilter-P :
      {Name : Bytes → Type 0}
      → Preserves d Name P
      → (id : ℕ) (text code : Bytes) (s : Session g d) → P s.db
      → P (cmd_sfiltersetfilter w id text code s).db
  unfolding cmd_sfiltersetfilter
  sfiltersetfilter-P p id text code s h =
      parsed-P (expr_parse_str text) _ s
        (λ e. done-P w P _ _ _ _ _ code s (p.sfilter_setfilter id text s.db h)) h
