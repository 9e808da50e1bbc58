-- ===== src/Commands/Preserving/Run.antt =====
-- The commands of proto_cmd.c keep what the database keeps.
use dudld.Common.{Bytes, List, []}
use dudld.Player.State.{Pipeline}
use dudld.Proto.Dispatch.{Cmd}
use dudld.Commands.Session.{Database, World, Session}
use dudld.Commands.Handlers.{say}
use dudld.Commands.Requests.{
  Request, run, albumget, albumlist, albumsartist, albumsearch, albumsetartist, albumsetname,
  albumsetyear, albumstag, artistadd, artistdel, artistget, artistlist, artistmerge, artistsearch,
  artistsetname, artiststag, clientlist, curtrack, cut, cutset, elapsed, filter, filterset,
  filterstat, filtertop, gap, gapset, help, history, historytrack, jump, next, pass, pause, play,
  prev, queueadd, queueclear, queuedel, queueget, queuelist, queuesum, quit, random, randomset,
  replaygain, replaygainset, rgpreamp, rgpreampset, sfilter2id, sfilteradd, sfilterdel, sfilterget,
  sfilterlist, sfiltersetfilter, sfiltersetname, sleep, sleepset, status, stop, tag2id, tagadd,
  tagdel, tagget, taglist, tagsartist, tagsetdesc, tagsetname, track2id, trackcount, trackget,
  tracksalbum, tracksartist, tracksearch, tracksearchf, tracksetartist, tracksetname, tracktagadd,
  tracktagdel, tracktagged, tracktaglist, user, user2id, useradd, userdel, userget, userlist,
  usersetpass, usersetright,
}
use dudld.Commands.Users.{
  cmd_clientlist, cmd_help, cmd_quit, cmd_user, cmd_user2id, cmd_useradd, cmd_userdel, cmd_userget,
  cmd_userlist, cmd_usersetpass, cmd_usersetright,
}
use dudld.Commands.Playing.{
  cmd_cut, cmd_cutset, cmd_elapsed, cmd_gap, cmd_gapset, cmd_next, cmd_pause, cmd_play, cmd_prev,
  cmd_random, cmd_randomset, cmd_replaygain, cmd_replaygainset, cmd_rgpreamp, cmd_rgpreampset,
  cmd_sleep, cmd_sleepset, cmd_status, cmd_stop,
}
use dudld.Commands.Tracks.{
  cmd_filterstat, cmd_filtertop, cmd_history, cmd_historytrack, cmd_track2id, cmd_trackcount,
  cmd_trackget, cmd_tracksalbum, cmd_tracksartist, cmd_tracksearch, cmd_tracksetartist,
  cmd_tracksetname,
}
use dudld.Commands.Tags.{
  cmd_queueclear, cmd_queueget, cmd_queuelist, cmd_queuesum, cmd_tag2id, cmd_tagadd, cmd_tagdel,
  cmd_tagget, cmd_taglist, cmd_tagsartist, cmd_tagsetdesc, cmd_tagsetname, cmd_tracktagadd,
  cmd_tracktagdel, cmd_tracktagged, cmd_tracktaglist,
}
use dudld.Commands.Albums.{
  cmd_albumget, cmd_albumlist, cmd_albumsartist, cmd_albumsearch, cmd_albumsetartist,
  cmd_albumsetname, cmd_albumsetyear, cmd_albumstag, cmd_artistadd, cmd_artistdel, cmd_artistget,
  cmd_artistlist, cmd_artistmerge, cmd_artistsearch, cmd_artistsetname, cmd_artiststag,
  cmd_sfilter2id, cmd_sfilteradd, cmd_sfilterdel, cmd_sfilterget, cmd_sfilterlist,
  cmd_sfiltersetname,
}
use dudld.Commands.Preserving.{
  Preserves, Named, list-P, record-P, number-P, done-P, player-P, jump-P, set-P,
}
use dudld.Commands.Preserving.Special.{
  curtrack-P, pass-P, queueadd-P, queuedel-P, filter-P, filterset-P, tracksearchf-P,
  sfiltersetfilter-P,
}

module _ {g : Pipeline} {d : Database} (w : World g) (P : d.S → Type 0) where
  -- One command: the other parts of the handlers do not touch the database.
  pub run-Preserves :
      {Name : Bytes → Type 0} {D : Type 0} (cmds : List (Cmd D)) (p : Preserves d Name P)
      (r : Request g) (code : Bytes) (s : Session g d)
      → Named Name r
      → P s.db
      → P (run cmds w r code s).db
  unfolding run cmd_albumget cmd_albumlist cmd_albumsartist cmd_albumsearch cmd_albumsetartist
      cmd_albumsetname cmd_albumsetyear cmd_albumstag cmd_artistadd cmd_artistdel cmd_artistget
      cmd_artistlist cmd_artistmerge cmd_artistsearch cmd_artistsetname cmd_artiststag cmd_cut
      cmd_cutset cmd_elapsed cmd_filterstat cmd_filtertop cmd_gap cmd_gapset cmd_history
      cmd_historytrack cmd_next cmd_pause cmd_play cmd_prev cmd_queueclear cmd_queueget
      cmd_queuelist cmd_queuesum cmd_random cmd_randomset cmd_replaygain cmd_replaygainset
      cmd_rgpreamp cmd_rgpreampset cmd_sfilter2id cmd_sfilteradd cmd_sfilterdel cmd_sfilterget
      cmd_sfilterlist cmd_sfiltersetname cmd_sleep cmd_sleepset cmd_status cmd_stop cmd_tag2id
      cmd_tagadd cmd_tagdel cmd_tagget cmd_taglist cmd_tagsartist cmd_tagsetdesc cmd_tagsetname
      cmd_track2id cmd_trackcount cmd_trackget cmd_tracksalbum cmd_tracksartist cmd_tracksearch
      cmd_tracksetartist cmd_tracksetname cmd_tracktagadd cmd_tracktagdel cmd_tracktagged
      cmd_tracktaglist cmd_user2id cmd_useradd cmd_userdel cmd_userget cmd_userlist cmd_usersetpass
      cmd_usersetright
  run-Preserves cmds p userlist code s n h = list-P w P _ _ code s (p.users_list s.db h)
  run-Preserves cmds p (userget a) code s n h = record-P w P _ _ _ _ code s (p.user_get a s.db h)
  run-Preserves cmds p (user2id a) code s n h = number-P w P _ _ _ _ code s (p.user_id a s.db h)
  run-Preserves cmds p (useradd a) code s n h =
      number-P w P _ _ _ _ code s (p.user_add a 1 [] s.db n h)
  run-Preserves cmds p (usersetpass a b) code s n h =
      done-P w P _ _ _ _ _ code s (p.user_setpass a b s.db h)
  run-Preserves cmds p (usersetright a b) code s n h =
      done-P w P _ _ _ _ _ code s (p.user_setright a b s.db h)
  run-Preserves cmds p (userdel a) code s n h = done-P w P _ _ _ _ _ code s (p.user_del a s.db h)
  run-Preserves cmds p play code s n h = player-P w P _ _ code s h
  run-Preserves cmds p stop code s n h = player-P w P _ _ code s h
  run-Preserves cmds p next code s n h = player-P w P _ _ code s h
  run-Preserves cmds p prev code s n h = player-P w P _ _ code s h
  run-Preserves cmds p pause code s n h = player-P w P _ _ code s h
  run-Preserves cmds p elapsed code s n h = unfold say in h
  run-Preserves cmds p (jump a) code s n h = jump-P w P a code s h
  run-Preserves cmds p status code s n h = unfold say in h
  run-Preserves cmds p gap code s n h = unfold say in h
  run-Preserves cmds p (gapset a) code s n h = set-P w P _ _ code s h
  run-Preserves cmds p cut code s n h = unfold say in h
  run-Preserves cmds p (cutset a) code s n h = set-P w P _ _ code s h
  run-Preserves cmds p replaygain code s n h = unfold say in h
  run-Preserves cmds p (replaygainset a) code s n h = set-P w P _ _ code s h
  run-Preserves cmds p rgpreamp code s n h = unfold say in h
  run-Preserves cmds p (rgpreampset a) code s n h = set-P w P _ _ code s h
  run-Preserves cmds p random code s n h = unfold say in h
  run-Preserves cmds p (randomset a) code s n h = set-P w P _ _ code s h
  run-Preserves cmds p sleep code s n h = unfold say in h
  run-Preserves cmds p (sleepset a) code s n h = unfold say in h
  run-Preserves cmds p trackcount code s n h = number-P w P _ _ _ _ code s (p.tracks s.db h)
  run-Preserves cmds p (tracksearch a) code s n h = list-P w P _ _ code s (p.tracks_search a s.db h)
  run-Preserves cmds p (tracksalbum a) code s n h =
      list-P w P _ _ code s (p.tracks_albumid a s.db h)
  run-Preserves cmds p (tracksartist a) code s n h =
      list-P w P _ _ code s (p.tracks_artistid a s.db h)
  run-Preserves cmds p (trackget a) code s n h = record-P w P _ _ _ _ code s (p.track_get a s.db h)
  run-Preserves cmds p (track2id a b) code s n h =
      number-P w P _ _ _ _ code s (p.track_id a b s.db h)
  run-Preserves cmds p (tracksetname a b) code s n h =
      done-P w P _ _ _ _ _ code s (p.track_setname a b s.db h)
  run-Preserves cmds p (tracksetartist a b) code s n h =
      done-P w P _ _ _ _ _ code s (p.track_setartist a b s.db h)
  run-Preserves cmds p filterstat code s n h =
      number-P w P _ _ _ _ code s (p.random_filterstat s.db h)
  run-Preserves cmds p (filtertop a) code s n h = list-P w P _ _ code s (p.random_top a s.db h)
  run-Preserves cmds p (history a) code s n h = list-P w P _ _ code s (p.history_list a s.db h)
  run-Preserves cmds p (historytrack a b) code s n h =
      list-P w P _ _ code s (p.history_tracklist a b s.db h)
  run-Preserves cmds p queuelist code s n h = list-P w P _ _ code s (p.queue_list s.db h)
  run-Preserves cmds p (queueget a) code s n h = record-P w P _ _ _ _ code s (p.queue_get a s.db h)
  run-Preserves cmds p queueclear code s n h = done-P w P _ _ _ _ _ code s (p.queue_clear s.db h)
  run-Preserves cmds p queuesum code s n h = number-P w P _ _ _ _ code s (p.queue_sum s.db h)
  run-Preserves cmds p taglist code s n h = list-P w P _ _ code s (p.tags_list s.db h)
  run-Preserves cmds p (tagget a) code s n h = record-P w P _ _ _ _ code s (p.tag_get a s.db h)
  run-Preserves cmds p (tagsartist a) code s n h = list-P w P _ _ code s (p.tags_artist a s.db h)
  run-Preserves cmds p (tag2id a) code s n h = number-P w P _ _ _ _ code s (p.tag_id a s.db h)
  run-Preserves cmds p (tagadd a) code s n h = number-P w P _ _ _ _ code s (p.tag_add a s.db h)
  run-Preserves cmds p (tagsetname a b) code s n h =
      done-P w P _ _ _ _ _ code s (p.tag_setname a b s.db h)
  run-Preserves cmds p (tagsetdesc a b) code s n h =
      done-P w P _ _ _ _ _ code s (p.tag_setdesc a b s.db h)
  run-Preserves cmds p (tagdel a) code s n h = done-P w P _ _ _ _ _ code s (p.tag_del a s.db h)
  run-Preserves cmds p (tracktaglist a) code s n h = list-P w P _ _ code s (p.track_tags a s.db h)
  run-Preserves cmds p (tracktagadd a b) code s n h =
      done-P w P _ _ _ _ _ code s (p.track_tagadd a b s.db h)
  run-Preserves cmds p (tracktagdel a b) code s n h =
      done-P w P _ _ _ _ _ code s (p.track_tagdel a b s.db h)
  run-Preserves cmds p (tracktagged a b) code s n h =
      number-P w P _ _ _ _ code s (p.track_tagged a b s.db h)
  run-Preserves cmds p albumlist code s n h = list-P w P _ _ code s (p.albums_list s.db h)
  run-Preserves cmds p (albumsartist a) code s n h =
      list-P w P _ _ code s (p.albums_artistid a s.db h)
  run-Preserves cmds p (albumstag a) code s n h = list-P w P _ _ code s (p.albums_tag a s.db h)
  run-Preserves cmds p (albumsearch a) code s n h = list-P w P _ _ code s (p.albums_search a s.db h)
  run-Preserves cmds p (albumget a) code s n h = record-P w P _ _ _ _ code s (p.album_get a s.db h)
  run-Preserves cmds p (albumsetname a b) code s n h =
      done-P w P _ _ _ _ _ code s (p.album_setname a b s.db h)
  run-Preserves cmds p (albumsetartist a b) code s n h =
      done-P w P _ _ _ _ _ code s (p.album_setartist a b s.db h)
  run-Preserves cmds p (albumsetyear a b) code s n h =
      done-P w P _ _ _ _ _ code s (p.album_setyear a b s.db h)
  run-Preserves cmds p artistlist code s n h = list-P w P _ _ code s (p.artists_list s.db h)
  run-Preserves cmds p (artistsearch a) code s n h =
      list-P w P _ _ code s (p.artists_search a s.db h)
  run-Preserves cmds p (artiststag a) code s n h = list-P w P _ _ code s (p.artists_tag a s.db h)
  run-Preserves cmds p (artistget a) code s n h =
      record-P w P _ _ _ _ code s (p.artist_get a s.db h)
  run-Preserves cmds p (artistadd a) code s n h =
      number-P w P _ _ _ _ code s (p.artist_add a s.db h)
  run-Preserves cmds p (artistsetname a b) code s n h =
      done-P w P _ _ _ _ _ code s (p.artist_setname a b s.db h)
  run-Preserves cmds p (artistmerge a b) code s n h =
      done-P w P _ _ _ _ _ code s (p.artist_merge a b s.db h)
  run-Preserves cmds p (artistdel a) code s n h =
      done-P w P _ _ _ _ _ code s (p.artist_del a s.db h)
  run-Preserves cmds p sfilterlist code s n h = list-P w P _ _ code s (p.sfilters_list s.db h)
  run-Preserves cmds p (sfilterget a) code s n h =
      record-P w P _ _ _ _ code s (p.sfilter_get a s.db h)
  run-Preserves cmds p (sfilter2id a) code s n h =
      number-P w P _ _ _ _ code s (p.sfilter_id a s.db h)
  run-Preserves cmds p (sfilteradd a) code s n h =
      number-P w P _ _ _ _ code s (p.sfilter_add a s.db h)
  run-Preserves cmds p (sfiltersetname a b) code s n h =
      done-P w P _ _ _ _ _ code s (p.sfilter_setname a b s.db h)
  run-Preserves cmds p (sfilterdel a) code s n h =
      done-P w P _ _ _ _ _ code s (p.sfilter_del a s.db h)
  run-Preserves cmds p (user a) code s n h = unfold cmd_user say in h
  run-Preserves cmds p (pass a) code s n h = pass-P w P p a code s h
  run-Preserves cmds p clientlist code s n h = unfold cmd_clientlist in h
  run-Preserves cmds p (queueadd a) code s n h = queueadd-P w P p a code s h
  run-Preserves cmds p (queuedel a) code s n h = queuedel-P w P p a code s h
  run-Preserves cmds p filter code s n h = filter-P w P p code s h
  run-Preserves cmds p (filterset a) code s n h = filterset-P w P p a code s h
  run-Preserves cmds p (tracksearchf a) code s n h = tracksearchf-P w P p a code s h
  run-Preserves cmds p (sfiltersetfilter a b) code s n h = sfiltersetfilter-P w P p a b code s h
  run-Preserves cmds p help code s n h = unfold cmd_help say in h
  run-Preserves cmds p quit code s n h = unfold cmd_quit say in h
  run-Preserves cmds p curtrack code s n h = curtrack-P w P code s h
