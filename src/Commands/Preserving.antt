-- ===== src/Commands/Preserving.antt =====
-- What the handlers keep of the database: whatever all of its functions keep.
mod Special
pub mod Run
use dudld.Common.{
  ℕ, Bytes, List, [], ◌∷◌, Option, none, some, ◌++◌, Bool, true, false, if◌then◌else◌, ◌==◌,
}
use dudld.ParseExpr.Syntax.{Expr}
use dudld.ParseExpr.Parser.{Parsed, parsed, failed, gave_up, expr_parse_str}
use dudld.Player.State.{Pipeline, Player, PlayError}
use dudld.Proto.Dispatch.{Cmd}
use dudld.Proto.Reply.{Out, proto_fmtline}
use dudld.Format.Records.{User}
use dudld.Commands.Session.{Database, World, Session}
use dudld.Common.{codes}
use dudld.Common.Memory.{Memory, c_string}
use dudld.Player.State.{Track}
use dudld.Format.Dump.{dump_track}
use dudld.ParseExpr.Print.{expr_fmt}
use dudld.Commands.Session.{is_nonzero, is_minus_one}
use dudld.Commands.Broadcast.{proto_bcast, bcast_record, proto_bcast_login, player_track, r_master}
use dudld.Commands.Users.{login_failed, logged_in, check_user}
use dudld.Commands.Tracks.{bad_filter}
use dudld.Commands.Handlers.{
  Handler, say, reply_list, reply_record, reply_number, reply_done, reply_player, set_player,
}
use dudld.ParseExpr.Text.{print_int}
use dudld.Commands.Requests.{
  Request, run, albumget, albumlist, albumsartist, albumsearch, albumsetartist, albumsetname,
  albumsetyear, albumstag, artistadd, artistdel, artistget, artistlist, artistmerge, artistsearch,
  artistsetname, artiststag, clientlist, curtrack, cut, cutset, elapsed, filter, filterset,
  filterstat, filtertop, gap, gapset, help, history, historytrack, jump, next, pass, pause, play,
  prev, queueadd, queueclear, queuedel, queueget, queuelist, queuesum, quit, random, randomset,
  replaygain, replaygainset, rgpreamp, rgpreampset, sfilter2id, sfilteradd, sfilterdel, sfilterget,
  sfilterlist, sfiltersetfilter, sfiltersetname, sleep, sleepset, status, stop, tag2id, tagadd,
  tagdel, tagget, taglist, tagsartist, tagsetdesc, tagsetname, track2id, trackcount, trackget,
  tracksalbum, tracksartist, tracksearch, tracksearchf, tracksetartist, tracksetname, tracktagadd,
  tracktagdel, tracktagged, tracktaglist, user, user2id, useradd, userdel, userget, userlist,
  usersetpass, usersetright,
}
use dudld.Commands.Users.{
  cmd_clientlist, cmd_help, cmd_pass, cmd_quit, cmd_user, cmd_user2id, cmd_useradd, cmd_userdel,
  cmd_userget, cmd_userlist, cmd_usersetpass, cmd_usersetright,
}
use dudld.Player.Control.{player_jump}
use dudld.Commands.Playing.{
  cmd_curtrack, cmd_cut, cmd_cutset, cmd_elapsed, cmd_gap, cmd_gapset, cmd_jump, cmd_next,
  cmd_pause, cmd_play, cmd_prev, cmd_random, cmd_randomset, cmd_replaygain, cmd_replaygainset,
  cmd_rgpreamp, cmd_rgpreampset, cmd_sleep, cmd_sleepset, cmd_status, cmd_stop,
}
use dudld.Commands.Tracks.{
  cmd_filter, cmd_filterset, cmd_filterstat, cmd_filtertop, cmd_history, cmd_historytrack,
  cmd_track2id, cmd_trackcount, cmd_trackget, cmd_tracksalbum, cmd_tracksartist, cmd_tracksearch,
  cmd_tracksearchf, cmd_tracksetartist, cmd_tracksetname,
}
use dudld.Commands.Tags.{
  cmd_queueadd, cmd_queueclear, cmd_queuedel, cmd_queueget, cmd_queuelist, cmd_queuesum, cmd_tag2id,
  cmd_tagadd, cmd_tagdel, cmd_tagget, cmd_taglist, cmd_tagsartist, cmd_tagsetdesc, cmd_tagsetname,
  cmd_tracktagadd, cmd_tracktagdel, cmd_tracktagged, cmd_tracktaglist,
}
use dudld.Commands.Albums.{
  cmd_albumget, cmd_albumlist, cmd_albumsartist, cmd_albumsearch, cmd_albumsetartist,
  cmd_albumsetname, cmd_albumsetyear, cmd_albumstag, cmd_artistadd, cmd_artistdel, cmd_artistget,
  cmd_artistlist, cmd_artistmerge, cmd_artistsearch, cmd_artistsetname, cmd_artiststag,
  cmd_sfilter2id, cmd_sfilteradd, cmd_sfilterdel, cmd_sfilterget, cmd_sfilterlist,
  cmd_sfiltersetfilter, cmd_sfiltersetname,
}

-- Every function of a database keeps `P`; the names of new users are ones that `Name` holds of.
pub record Preserves (d : Database) (Name : Bytes → Type 0) (P : d.S → Type 0) : Type 0 where
  pub user_getn : (a : Bytes) (s : d.S) → P s → P (d.user_getn a s).0
  pub users_list : (s : d.S) → P s → P (d.users_list s).0
  pub user_get : (a : ℕ) (s : d.S) → P s → P (d.user_get a s).0
  pub user_id : (a : Bytes) (s : d.S) → P s → P (d.user_id a s).0
  pub user_add : (a : Bytes) (b : ℕ) (c : Bytes) (s : d.S) → Name a → P s → P (d.user_add a b c s).0
  pub user_setpass : (a : ℕ) (b : Bytes) (s : d.S) → P s → P (d.user_setpass a b s).0
  pub user_setright : (a : ℕ) (b : ℕ) (s : d.S) → P s → P (d.user_setright a b s).0
  pub user_del : (a : ℕ) (s : d.S) → P s → P (d.user_del a s).0
  pub tracks : (s : d.S) → P s → P (d.tracks s).0
  pub tracks_search : (a : Bytes) (s : d.S) → P s → P (d.tracks_search a s).0
  pub tracks_searchf : (a : Expr) (s : d.S) → P s → P (d.tracks_searchf a s).0
  pub tracks_albumid : (a : ℕ) (s : d.S) → P s → P (d.tracks_albumid a s).0
  pub tracks_artistid : (a : ℕ) (s : d.S) → P s → P (d.tracks_artistid a s).0
  pub track_get : (a : ℕ) (s : d.S) → P s → P (d.track_get a s).0
  pub track_id : (a : ℕ) (b : ℕ) (s : d.S) → P s → P (d.track_id a b s).0
  pub track_setname : (a : ℕ) (b : Bytes) (s : d.S) → P s → P (d.track_setname a b s).0
  pub track_setartist : (a : ℕ) (b : ℕ) (s : d.S) → P s → P (d.track_setartist a b s).0
  pub random_filter : (s : d.S) → P s → P (d.random_filter s).0
  pub random_setfilter : (a : Expr) (s : d.S) → P s → P (d.random_setfilter a s).0
  pub random_filterstat : (s : d.S) → P s → P (d.random_filterstat s).0
  pub random_top : (a : ℕ) (s : d.S) → P s → P (d.random_top a s).0
  pub history_list : (a : ℕ) (s : d.S) → P s → P (d.history_list a s).0
  pub history_tracklist : (a : ℕ) (b : ℕ) (s : d.S) → P s → P (d.history_tracklist a b s).0
  pub queue_list : (s : d.S) → P s → P (d.queue_list s).0
  pub queue_get : (a : ℕ) (s : d.S) → P s → P (d.queue_get a s).0
  pub queue_add : (a : ℕ) (b : ℕ) (s : d.S) → P s → P (d.queue_add a b s).0
  pub queue_del : (a : ℕ) (b : ℕ) (s : d.S) → P s → P (d.queue_del a b s).0
  pub queue_clear : (s : d.S) → P s → P (d.queue_clear s).0
  pub queue_sum : (s : d.S) → P s → P (d.queue_sum s).0
  pub tags_list : (s : d.S) → P s → P (d.tags_list s).0
  pub tag_get : (a : ℕ) (s : d.S) → P s → P (d.tag_get a s).0
  pub tags_artist : (a : ℕ) (s : d.S) → P s → P (d.tags_artist a s).0
  pub tag_id : (a : Bytes) (s : d.S) → P s → P (d.tag_id a s).0
  pub tag_add : (a : Bytes) (s : d.S) → P s → P (d.tag_add a s).0
  pub tag_setname : (a : ℕ) (b : Bytes) (s : d.S) → P s → P (d.tag_setname a b s).0
  pub tag_setdesc : (a : ℕ) (b : Bytes) (s : d.S) → P s → P (d.tag_setdesc a b s).0
  pub tag_del : (a : ℕ) (s : d.S) → P s → P (d.tag_del a s).0
  pub track_tags : (a : ℕ) (s : d.S) → P s → P (d.track_tags a s).0
  pub track_tagadd : (a : ℕ) (b : ℕ) (s : d.S) → P s → P (d.track_tagadd a b s).0
  pub track_tagdel : (a : ℕ) (b : ℕ) (s : d.S) → P s → P (d.track_tagdel a b s).0
  pub track_tagged : (a : ℕ) (b : ℕ) (s : d.S) → P s → P (d.track_tagged a b s).0
  pub albums_list : (s : d.S) → P s → P (d.albums_list s).0
  pub albums_artistid : (a : ℕ) (s : d.S) → P s → P (d.albums_artistid a s).0
  pub albums_tag : (a : ℕ) (s : d.S) → P s → P (d.albums_tag a s).0
  pub albums_search : (a : Bytes) (s : d.S) → P s → P (d.albums_search a s).0
  pub album_get : (a : ℕ) (s : d.S) → P s → P (d.album_get a s).0
  pub album_setname : (a : ℕ) (b : Bytes) (s : d.S) → P s → P (d.album_setname a b s).0
  pub album_setartist : (a : ℕ) (b : ℕ) (s : d.S) → P s → P (d.album_setartist a b s).0
  pub album_setyear : (a : ℕ) (b : ℕ) (s : d.S) → P s → P (d.album_setyear a b s).0
  pub artists_list : (s : d.S) → P s → P (d.artists_list s).0
  pub artists_search : (a : Bytes) (s : d.S) → P s → P (d.artists_search a s).0
  pub artists_tag : (a : ℕ) (s : d.S) → P s → P (d.artists_tag a s).0
  pub artist_get : (a : ℕ) (s : d.S) → P s → P (d.artist_get a s).0
  pub artist_add : (a : Bytes) (s : d.S) → P s → P (d.artist_add a s).0
  pub artist_setname : (a : ℕ) (b : Bytes) (s : d.S) → P s → P (d.artist_setname a b s).0
  pub artist_merge : (a : ℕ) (b : ℕ) (s : d.S) → P s → P (d.artist_merge a b s).0
  pub artist_del : (a : ℕ) (s : d.S) → P s → P (d.artist_del a s).0
  pub sfilters_list : (s : d.S) → P s → P (d.sfilters_list s).0
  pub sfilter_get : (a : ℕ) (s : d.S) → P s → P (d.sfilter_get a s).0
  pub sfilter_id : (a : Bytes) (s : d.S) → P s → P (d.sfilter_id a s).0
  pub sfilter_add : (a : Bytes) (s : d.S) → P s → P (d.sfilter_add a s).0
  pub sfilter_setname : (a : ℕ) (b : Bytes) (s : d.S) → P s → P (d.sfilter_setname a b s).0
  pub sfilter_setfilter : (a : ℕ) (b : Bytes) (s : d.S) → P s → P (d.sfilter_setfilter a b s).0
  pub sfilter_del : (a : ℕ) (s : d.S) → P s → P (d.sfilter_del a s).0

-- The name that a request gives to a new user.
abbrev pub Named : {g : Pipeline} → (Bytes → Type 0) → Request g → Type 0
Named Name (useradd a) = Name a
Named Name _ = Unit

module _ {g : Pipeline} {d : Database} (w : World g) (P : d.S → Type 0) where
  pub list-P :
      {X : Type 0} (dump : Bytes → List X → Out → Out) (query : d.S → d.S × List X) (code : Bytes)
      (s : Session g d)
      → P (query s.db).0
      → P (reply_list w dump query code s).db
  unfolding reply_list
  list-P dump query code s h = h

  pub record-P :
      {X : Type 0} (dump : Bytes → X → Out → Out) (query : d.S → d.S × Option X)
      (error text code : Bytes) (s : Session g d)
      → P (query s.db).0
      → P (reply_record w dump query error text code s).db
  unfolding reply_record say
  record-P {X} dump query error text code s h = found (query s.db).1
    where
      found :
          (o : Option X)
          → let t : Session g d = record s { db = (query s.db).0 } in
            let u : Session g d = elim o [
              | none ↦ say w error text t
              | some x ↦ record t { out = dump code x s.out }
            ] in
            P u.db
      found none = h
      found (some x) = h

  pub number-P :
      (fails : ℕ → Bool) (query : d.S → d.S × ℕ) (error text code : Bytes) (s : Session g d)
      → P (query s.db).0
      → P (reply_number w fails query error text code s).db
  unfolding reply_number say
  number-P fails query error text code s h = failed (fails (query s.db).1)
    where
      failed :
          (b : Bool)
          → let t : Session g d = record s { db = (query s.db).0 } in
            P (if b then say w error text t else say w code (print_int (query s.db).1) t).db
      failed true = h
      failed false = h

  pub done-P :
      (fails : ℕ → Bool) (query : d.S → d.S × ℕ) (error text done code : Bytes) (s : Session g d)
      → P (query s.db).0
      → P (reply_done w fails query error text done code s).db
  unfolding reply_done say
  done-P fails query error text done code s h = failed (fails (query s.db).1)
    where
      failed :
          (b : Bool)
          → let t : Session g d = record s { db = (query s.db).0 } in
            P (if b then say w error text t else say w code done t).db
      failed true = h
      failed false = h

  pub player-P :
      (ask : Player g → PlayError × Player g) (text code : Bytes) (s : Session g d)
      → P s.db
      → P (reply_player w ask text code s).db
  unfolding reply_player
  player-P ask text code s h = h

  pub jump-P : (n : ℕ) (code : Bytes) (s : Session g d) → P s.db → P (cmd_jump w n code s).db
  unfolding cmd_jump reply_player
  jump-P n code s h = by_crash (player_jump n s.sleep.player).1.crashed _ _ h h
    where
      by_crash : (b : Bool) (t u : Session g d) → P t.db → P u.db → P (if b then t else u).db
      by_crash true t u h k = h
      by_crash false t u h k = k

  pub set-P :
      (ask : Player g → PlayError × Player g) (text code : Bytes) (s : Session g d)
      → P s.db
      → P (set_player w ask text code s).db
  unfolding set_player say
  set-P ask text code s h = h
