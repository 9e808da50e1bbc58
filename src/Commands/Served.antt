-- ===== src/Commands/Served.antt =====
-- What the handlers of proto_cmd.c do for the client, whatever the database and the player answer: all those
-- that leave its login as it is and do not read the fields of its user.
use dudld.Common.{Bool, true, false, ◌≡◌, refl, Bytes, List, some}
use dudld.Player.State.{Pipeline}
use dudld.Proto.Dispatch.{Cmd}
use dudld.Format.Records.{mkalbum, mkartist, mkhistory, mkqueue, mksfilter, mktag, mktrack, mkuser}
use dudld.Format.Dump.{
  dump_album, dump_albums, dump_artist, dump_artists, dump_history, dump_queue, dump_queues,
  dump_sfilter, dump_sfilters, dump_tag, dump_tags, dump_track, dump_tracks, dump_user, dump_users,
}
use dudld.Format.Answers.{dump_one-Answered, dump_all-Answered}
use dudld.Commands.Session.{Database, World, Session}
use dudld.Commands.Users.{
  cmd_user2id, cmd_useradd, cmd_userdel, cmd_userget, cmd_userlist, cmd_usersetpass,
  cmd_usersetright,
}
use dudld.Commands.Playing.{
  cmd_cut, cmd_cutset, cmd_elapsed, cmd_gap, cmd_gapset, cmd_next, cmd_pause, cmd_play, cmd_prev,
  cmd_random, cmd_randomset, cmd_replaygain, cmd_replaygainset, cmd_rgpreamp, cmd_rgpreampset,
  cmd_sleep, cmd_sleepset, cmd_status, cmd_stop,
}
use dudld.Commands.Tracks.{
  cmd_filterstat, cmd_filtertop, cmd_history, cmd_historytrack, cmd_track2id, cmd_trackcount,
  cmd_trackget, cmd_tracksalbum, cmd_tracksartist, cmd_tracksearch, cmd_tracksetartist,
  cmd_tracksetname,
}
use dudld.Commands.Tags.{
  cmd_queueclear, cmd_queueget, cmd_queuelist, cmd_queuesum, cmd_tag2id, cmd_tagadd, cmd_tagdel,
  cmd_tagget, cmd_taglist, cmd_tagsartist, cmd_tagsetdesc, cmd_tagsetname, cmd_tracktagadd,
  cmd_tracktagdel, cmd_tracktagged, cmd_tracktaglist,
}
use dudld.Commands.Albums.{
  cmd_albumget, cmd_albumlist, cmd_albumsartist, cmd_albumsearch, cmd_albumsetartist,
  cmd_albumsetname, cmd_albumsetyear, cmd_albumstag, cmd_artistadd, cmd_artistdel, cmd_artistget,
  cmd_artistlist, cmd_artistmerge, cmd_artistsearch, cmd_artistsetname, cmd_artiststag,
  cmd_sfilter2id, cmd_sfilteradd, cmd_sfilterdel, cmd_sfilterget, cmd_sfilterlist,
  cmd_sfiltersetname,
}
use dudld.Commands.Requests.{
  Request, quit, user, pass, clientlist, userlist, userget, user2id, useradd, usersetpass,
  usersetright, userdel, play, stop, next, prev, pause, elapsed, jump, status, curtrack, gap,
  gapset, cut, cutset, replaygain, replaygainset, rgpreamp, rgpreampset, random, randomset, sleep,
  sleepset, trackcount, tracksearch, tracksearchf, tracksalbum, tracksartist, trackget, track2id,
  tracksetname, tracksetartist, filter, filterset, filterstat, filtertop, history, historytrack,
  queuelist, queueget, queueadd, queuedel, queueclear, queuesum, taglist, tagget, tagsartist,
  tag2id, tagadd, tagsetname, tagsetdesc, tagdel, tracktaglist, tracktagadd, tracktagdel,
  tracktagged, albumlist, albumsartist, albumstag, albumsearch, albumget, albumsetname,
  albumsetartist, albumsetyear, artistlist, artistsearch, artiststag, artistget, artistadd,
  artistsetname, artistmerge, artistdel, sfilterlist, sfilterget, sfilter2id, sfilteradd,
  sfiltersetname, sfiltersetfilter, sfilterdel, help, run,
}
use dudld.Commands.Answers.{
  Handled, say-Handled, reply_list-Handled, reply_record-Handled, reply_number-Handled,
  reply_done-Handled, reply_player-Handled, set_player-Handled,
}
use dudld.Commands.Special.{
  cmd_quit-Handled, cmd_clientlist-Handled, cmd_curtrack-Handled, cmd_filter-Handled,
  cmd_tracksearchf-Handled, cmd_filterset-Handled, cmd_sfiltersetfilter-Handled, cmd_help-Handled,
}

-- A request that is no step of a login and does not need a user.
abbrev pub is_ordinary : {g : Pipeline} → Request g → Bool
is_ordinary (user a) = false
is_ordinary (pass a) = false
is_ordinary (queueadd a) = false
is_ordinary (queuedel a) = false
is_ordinary (jump a) = false
is_ordinary _ = true

module _ {g : Pipeline} {d : Database} (w : World g) where
  pub handled :
      {D : Type 0} (cmds : List (Cmd D)) (r : Request g) (code : Bytes) (s : Session g d)
      → is_ordinary r ≡ true
      → Handled s (run cmds w r code s)
  unfolding run cmd_albumget cmd_albumlist cmd_albumsartist cmd_albumsearch cmd_albumsetartist
      cmd_albumsetname cmd_albumsetyear cmd_albumstag cmd_artistadd cmd_artistdel cmd_artistget
      cmd_artistlist cmd_artistmerge cmd_artistsearch cmd_artistsetname cmd_artiststag cmd_cut
      cmd_cutset cmd_elapsed cmd_filterstat cmd_filtertop cmd_gap cmd_gapset cmd_history
      cmd_historytrack cmd_next cmd_pause cmd_play cmd_prev cmd_queueclear cmd_queueget
      cmd_queuelist cmd_queuesum cmd_random cmd_randomset cmd_replaygain cmd_replaygainset
      cmd_rgpreamp cmd_rgpreampset cmd_sfilter2id cmd_sfilteradd cmd_sfilterdel cmd_sfilterget
      cmd_sfilterlist cmd_sfiltersetname cmd_sleep cmd_sleepset cmd_status cmd_stop cmd_tag2id
      cmd_tagadd cmd_tagdel cmd_tagget cmd_taglist cmd_tagsartist cmd_tagsetdesc cmd_tagsetname
      cmd_track2id cmd_trackcount cmd_trackget cmd_tracksalbum cmd_tracksartist cmd_tracksearch
      cmd_tracksetartist cmd_tracksetname cmd_tracktagadd cmd_tracktagdel cmd_tracktagged
      cmd_tracktaglist cmd_user2id cmd_useradd cmd_userdel cmd_userget cmd_userlist cmd_usersetpass
      cmd_usersetright dump_album dump_albums dump_artist dump_artists dump_history dump_queue
      dump_queues dump_sfilter dump_sfilters dump_tag dump_tags dump_track dump_tracks dump_user
      dump_users
  handled cmds userlist code s h =
      reply_list-Handled w _ _ code s
        (dump_all-Answered w.host (λ strdup m u. mkuser strdup m (some u)))
  handled cmds (userget a) code s h =
      reply_record-Handled w _ _ _ _ code s (λ c u. dump_one-Answered w.host mkuser c (some u))
  handled cmds (user2id a) code s h = reply_number-Handled w _ _ _ _ code s
  handled cmds (useradd a) code s h = reply_number-Handled w _ _ _ _ code s
  handled cmds (usersetpass a b) code s h = reply_done-Handled w _ _ _ _ _ code s
  handled cmds (usersetright a b) code s h = reply_done-Handled w _ _ _ _ _ code s
  handled cmds (userdel a) code s h = reply_done-Handled w _ _ _ _ _ code s
  handled cmds play code s h = reply_player-Handled w _ _ code s
  handled cmds stop code s h = reply_player-Handled w _ _ code s
  handled cmds next code s h = reply_player-Handled w _ _ code s
  handled cmds prev code s h = reply_player-Handled w _ _ code s
  handled cmds pause code s h = reply_player-Handled w _ _ code s
  handled cmds elapsed code s h =
      say-Handled w code _ s _ (record { pstate = refl; user = refl; pdata = refl; crashed = refl })
        refl
  handled cmds (jump a) code s h = absurd (cc h)
  handled cmds status code s h =
      say-Handled w code _ s _ (record { pstate = refl; user = refl; pdata = refl; crashed = refl })
        refl
  handled cmds gap code s h =
      say-Handled w code _ s _ (record { pstate = refl; user = refl; pdata = refl; crashed = refl })
        refl
  handled cmds (gapset a) code s h = set_player-Handled w _ _ code s
  handled cmds cut code s h =
      say-Handled w code _ s _ (record { pstate = refl; user = refl; pdata = refl; crashed = refl })
        refl
  handled cmds (cutset a) code s h = set_player-Handled w _ _ code s
  handled cmds replaygain code s h =
      say-Handled w code _ s _ (record { pstate = refl; user = refl; pdata = refl; crashed = refl })
        refl
  handled cmds (replaygainset a) code s h = set_player-Handled w _ _ code s
  handled cmds rgpreamp code s h =
      say-Handled w code _ s _ (record { pstate = refl; user = refl; pdata = refl; crashed = refl })
        refl
  handled cmds (rgpreampset a) code s h = set_player-Handled w _ _ code s
  handled cmds random code s h =
      say-Handled w code _ s _ (record { pstate = refl; user = refl; pdata = refl; crashed = refl })
        refl
  handled cmds (randomset a) code s h = set_player-Handled w _ _ code s
  handled cmds sleep code s h =
      say-Handled w code _ s _ (record { pstate = refl; user = refl; pdata = refl; crashed = refl })
        refl
  handled cmds (sleepset a) code s h =
      say-Handled w code _ s _ (record { pstate = refl; user = refl; pdata = refl; crashed = refl })
        refl
  handled cmds trackcount code s h = reply_number-Handled w _ _ _ _ code s
  handled cmds (tracksearch a) code s h =
      reply_list-Handled w _ _ code s (dump_all-Answered w.host mktrack)
  handled cmds (tracksalbum a) code s h =
      reply_list-Handled w _ _ code s (dump_all-Answered w.host mktrack)
  handled cmds (tracksartist a) code s h =
      reply_list-Handled w _ _ code s (dump_all-Answered w.host mktrack)
  handled cmds (trackget a) code s h =
      reply_record-Handled w _ _ _ _ code s (dump_one-Answered w.host mktrack)
  handled cmds (track2id a b) code s h = reply_number-Handled w _ _ _ _ code s
  handled cmds (tracksetname a b) code s h = reply_done-Handled w _ _ _ _ _ code s
  handled cmds (tracksetartist a b) code s h = reply_done-Handled w _ _ _ _ _ code s
  handled cmds filterstat code s h = reply_number-Handled w _ _ _ _ code s
  handled cmds (filtertop a) code s h =
      reply_list-Handled w _ _ code s (dump_all-Answered w.host mktrack)
  handled cmds (history a) code s h =
      reply_list-Handled w _ _ code s (dump_all-Answered w.host mkhistory)
  handled cmds (historytrack a b) code s h =
      reply_list-Handled w _ _ code s (dump_all-Answered w.host mkhistory)
  handled cmds queuelist code s h =
      reply_list-Handled w _ _ code s (dump_all-Answered w.host mkqueue)
  handled cmds (queueget a) code s h =
      reply_record-Handled w _ _ _ _ code s (dump_one-Answered w.host mkqueue)
  handled cmds queueclear code s h = reply_done-Handled w _ _ _ _ _ code s
  handled cmds queuesum code s h = reply_number-Handled w _ _ _ _ code s
  handled cmds taglist code s h = reply_list-Handled w _ _ code s (dump_all-Answered w.host mktag)
  handled cmds (tagget a) code s h =
      reply_record-Handled w _ _ _ _ code s (dump_one-Answered w.host mktag)
  handled cmds (tagsartist a) code s h =
      reply_list-Handled w _ _ code s (dump_all-Answered w.host mktag)
  handled cmds (tag2id a) code s h = reply_number-Handled w _ _ _ _ code s
  handled cmds (tagadd a) code s h = reply_number-Handled w _ _ _ _ code s
  handled cmds (tagsetname a b) code s h = reply_done-Handled w _ _ _ _ _ code s
  handled cmds (tagsetdesc a b) code s h = reply_done-Handled w _ _ _ _ _ code s
  handled cmds (tagdel a) code s h = reply_done-Handled w _ _ _ _ _ code s
  handled cmds (tracktaglist a) code s h =
      reply_list-Handled w _ _ code s (dump_all-Answered w.host mktag)
  handled cmds (tracktagadd a b) code s h = reply_done-Handled w _ _ _ _ _ code s
  handled cmds (tracktagdel a b) code s h = reply_done-Handled w _ _ _ _ _ code s
  handled cmds (tracktagged a b) code s h = reply_number-Handled w _ _ _ _ code s
  handled cmds albumlist code s h =
      reply_list-Handled w _ _ code s (dump_all-Answered w.host mkalbum)
  handled cmds (albumsartist a) code s h =
      reply_list-Handled w _ _ code s (dump_all-Answered w.host mkalbum)
  handled cmds (albumstag a) code s h =
      reply_list-Handled w _ _ code s (dump_all-Answered w.host mkalbum)
  handled cmds (albumsearch a) code s h =
      reply_list-Handled w _ _ code s (dump_all-Answered w.host mkalbum)
  handled cmds (albumget a) code s h =
      reply_record-Handled w _ _ _ _ code s (dump_one-Answered w.host mkalbum)
  handled cmds (albumsetname a b) code s h = reply_done-Handled w _ _ _ _ _ code s
  handled cmds (albumsetartist a b) code s h = reply_done-Handled w _ _ _ _ _ code s
  handled cmds (albumsetyear a b) code s h = reply_done-Handled w _ _ _ _ _ code s
  handled cmds artistlist code s h =
      reply_list-Handled w _ _ code s (dump_all-Answered w.host mkartist)
  handled cmds (artistsearch a) code s h =
      reply_list-Handled w _ _ code s (dump_all-Answered w.host mkartist)
  handled cmds (artiststag a) code s h =
      reply_list-Handled w _ _ code s (dump_all-Answered w.host mkartist)
  handled cmds (artistget a) code s h =
      reply_record-Handled w _ _ _ _ code s (dump_one-Answered w.host mkartist)
  handled cmds (artistadd a) code s h = reply_number-Handled w _ _ _ _ code s
  handled cmds (artistsetname a b) code s h = reply_done-Handled w _ _ _ _ _ code s
  handled cmds (artistmerge a b) code s h = reply_done-Handled w _ _ _ _ _ code s
  handled cmds (artistdel a) code s h = reply_done-Handled w _ _ _ _ _ code s
  handled cmds sfilterlist code s h =
      reply_list-Handled w _ _ code s (dump_all-Answered w.host mksfilter)
  handled cmds (sfilterget a) code s h =
      reply_record-Handled w _ _ _ _ code s (dump_one-Answered w.host mksfilter)
  handled cmds (sfilter2id a) code s h = reply_number-Handled w _ _ _ _ code s
  handled cmds (sfilteradd a) code s h = reply_number-Handled w _ _ _ _ code s
  handled cmds (sfiltersetname a b) code s h = reply_done-Handled w _ _ _ _ _ code s
  handled cmds (sfilterdel a) code s h = reply_done-Handled w _ _ _ _ _ code s
  handled cmds quit code s h = cmd_quit-Handled w code s
  handled cmds clientlist code s h = cmd_clientlist-Handled w code s
  handled cmds curtrack code s h = cmd_curtrack-Handled w code s
  handled cmds filter code s h = cmd_filter-Handled w code s
  handled cmds (tracksearchf a) code s h = cmd_tracksearchf-Handled w a code s
  handled cmds (filterset a) code s h = cmd_filterset-Handled w a code s
  handled cmds (sfiltersetfilter a b) code s h = cmd_sfiltersetfilter-Handled w a b code s
  handled cmds help code s h = cmd_help-Handled w cmds code s
  handled cmds (user a) code s h = absurd (cc h)
  handled cmds (pass a) code s h = absurd (cc h)
  handled cmds (queueadd a) code s h = absurd (cc h)
  handled cmds (queuedel a) code s h = absurd (cc h)
