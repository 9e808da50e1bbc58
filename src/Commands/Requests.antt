-- ===== src/Commands/Requests.antt =====
-- The commands of proto_cmd.c with their arguments, and mkproto.pl's table of the states that they are for.
-- The two commands that close other clients' connections are left out.
use dudld.Common.{ℕ, Bytes, List}
use dudld.Player.State.{Pipeline, ReplayGain}
use dudld.Proto.Dispatch.{ProtState, p_any, p_open, p_user, p_idle, Cmd}
use dudld.Commands.Session.{Database, World}
use dudld.Commands.Handlers.{Handler}
use dudld.Commands.Users.{
  cmd_quit, cmd_user, cmd_pass, cmd_clientlist, cmd_userlist, cmd_userget, cmd_user2id, cmd_useradd,
  cmd_usersetpass, cmd_usersetright, cmd_userdel, cmd_help,
}
use dudld.Commands.Playing.{
  cmd_play, cmd_stop, cmd_next, cmd_prev, cmd_pause, cmd_elapsed, cmd_jump, cmd_status,
  cmd_curtrack, cmd_gap, cmd_gapset, cmd_cut, cmd_cutset, cmd_replaygain, cmd_replaygainset,
  cmd_rgpreamp, cmd_rgpreampset, cmd_random, cmd_randomset, cmd_sleep, cmd_sleepset,
}
use dudld.Commands.Tracks.{
  cmd_trackcount, cmd_tracksearch, cmd_tracksearchf, cmd_tracksalbum, cmd_tracksartist,
  cmd_trackget, cmd_track2id, cmd_tracksetname, cmd_tracksetartist, cmd_filter, cmd_filterset,
  cmd_filterstat, cmd_filtertop, cmd_history, cmd_historytrack,
}
use dudld.Commands.Tags.{
  cmd_queuelist, cmd_queueget, cmd_queueadd, cmd_queuedel, cmd_queueclear, cmd_queuesum,
  cmd_taglist, cmd_tagget, cmd_tagsartist, cmd_tag2id, cmd_tagadd, cmd_tagsetname, cmd_tagsetdesc,
  cmd_tagdel, cmd_tracktaglist, cmd_tracktagadd, cmd_tracktagdel, cmd_tracktagged,
}
use dudld.Commands.Albums.{
  cmd_albumlist, cmd_albumsartist, cmd_albumstag, cmd_albumsearch, cmd_albumget, cmd_albumsetname,
  cmd_albumsetartist, cmd_albumsetyear, cmd_artistlist, cmd_artistsearch, cmd_artiststag,
  cmd_artistget, cmd_artistadd, cmd_artistsetname, cmd_artistmerge, cmd_artistdel, cmd_sfilterlist,
  cmd_sfilterget, cmd_sfilter2id, cmd_sfilteradd, cmd_sfiltersetname, cmd_sfiltersetfilter,
  cmd_sfilterdel,
}

pub data Request (g : Pipeline) : Type 0 where
  quit clientlist userlist play stop next prev pause elapsed status curtrack gap cut : Request g
  replaygain rgpreamp random sleep trackcount filter filterstat queuelist queueclear : Request g
  queuesum taglist albumlist artistlist sfilterlist help : Request g
  user pass user2id useradd tracksearch tracksearchf filterset tag2id tagadd : Bytes → Request g
  albumsearch artistsearch artistadd sfilter2id sfilteradd : Bytes → Request g
  userget userdel jump gapset cutset randomset sleepset tracksalbum tracksartist : ℕ → Request g
  trackget filtertop history queueget queueadd queuedel tagget tagsartist tagdel : ℕ → Request g
  tracktaglist albumsartist albumstag albumget artiststag artistget artistdel : ℕ → Request g
  sfilterget sfilterdel : ℕ → Request g
  usersetpass tracksetname tagsetname tagsetdesc albumsetname artistsetname : ℕ → Bytes → Request g
  sfiltersetname sfiltersetfilter : ℕ → Bytes → Request g
  usersetright track2id tracksetartist historytrack tracktagadd tracktagdel tracktagged :
      ℕ → ℕ → Request g
  albumsetartist albumsetyear artistmerge : ℕ → ℕ → Request g
  replaygainset : ReplayGain → Request g
  rgpreampset : g.Real → Request g

abbrev pub context : {g : Pipeline} → Request g → ProtState
context quit = p_any
context (user name) = p_open
context (pass word) = p_user
context help = p_any
context _ = p_idle

-- The handler of a command; `cmds` is proto_cmds.
unfoldable pub run :
    {D : Type 0} {g : Pipeline} {d : Database} → List (Cmd D) → World g → Request g → Handler g d
run cmds w quit = cmd_quit w
run cmds w (user a) = cmd_user w a
run cmds w (pass a) = cmd_pass w a
run cmds w clientlist = cmd_clientlist w
run cmds w userlist = cmd_userlist w
run cmds w (userget a) = cmd_userget w a
run cmds w (user2id a) = cmd_user2id w a
run cmds w (useradd a) = cmd_useradd w a
run cmds w (usersetpass a b) = cmd_usersetpass w a b
run cmds w (usersetright a b) = cmd_usersetright w a b
run cmds w (userdel a) = cmd_userdel w a
run cmds w play = cmd_play w
run cmds w stop = cmd_stop w
run cmds w next = cmd_next w
run cmds w prev = cmd_prev w
run cmds w pause = cmd_pause w
run cmds w elapsed = cmd_elapsed w
run cmds w (jump a) = cmd_jump w a
run cmds w status = cmd_status w
run cmds w curtrack = cmd_curtrack w
run cmds w gap = cmd_gap w
run cmds w (gapset a) = cmd_gapset w a
run cmds w cut = cmd_cut w
run cmds w (cutset a) = cmd_cutset w a
run cmds w replaygain = cmd_replaygain w
run cmds w (replaygainset a) = cmd_replaygainset w a
run cmds w rgpreamp = cmd_rgpreamp w
run cmds w (rgpreampset a) = cmd_rgpreampset w a
run cmds w random = cmd_random w
run cmds w (randomset a) = cmd_randomset w a
run cmds w sleep = cmd_sleep w
run cmds w (sleepset a) = cmd_sleepset w a
run cmds w trackcount = cmd_trackcount w
run cmds w (tracksearch a) = cmd_tracksearch w a
run cmds w (tracksearchf a) = cmd_tracksearchf w a
run cmds w (tracksalbum a) = cmd_tracksalbum w a
run cmds w (tracksartist a) = cmd_tracksartist w a
run cmds w (trackget a) = cmd_trackget w a
run cmds w (track2id a b) = cmd_track2id w a b
run cmds w (tracksetname a b) = cmd_tracksetname w a b
run cmds w (tracksetartist a b) = cmd_tracksetartist w a b
run cmds w filter = cmd_filter w
run cmds w (filterset a) = cmd_filterset w a
run cmds w filterstat = cmd_filterstat w
run cmds w (filtertop a) = cmd_filtertop w a
run cmds w (history a) = cmd_history w a
run cmds w (historytrack a b) = cmd_historytrack w a b
run cmds w queuelist = cmd_queuelist w
run cmds w (queueget a) = cmd_queueget w a
run cmds w (queueadd a) = cmd_queueadd w a
run cmds w (queuedel a) = cmd_queuedel w a
run cmds w queueclear = cmd_queueclear w
run cmds w queuesum = cmd_queuesum w
run cmds w taglist = cmd_taglist w
run cmds w (tagget a) = cmd_tagget w a
run cmds w (tagsartist a) = cmd_tagsartist w a
run cmds w (tag2id a) = cmd_tag2id w a
run cmds w (tagadd a) = cmd_tagadd w a
run cmds w (tagsetname a b) = cmd_tagsetname w a b
run cmds w (tagsetdesc a b) = cmd_tagsetdesc w a b
run cmds w (tagdel a) = cmd_tagdel w a
run cmds w (tracktaglist a) = cmd_tracktaglist w a
run cmds w (tracktagadd a b) = cmd_tracktagadd w a b
run cmds w (tracktagdel a b) = cmd_tracktagdel w a b
run cmds w (tracktagged a b) = cmd_tracktagged w a b
run cmds w albumlist = cmd_albumlist w
run cmds w (albumsartist a) = cmd_albumsartist w a
run cmds w (albumstag a) = cmd_albumstag w a
run cmds w (albumsearch a) = cmd_albumsearch w a
run cmds w (albumget a) = cmd_albumget w a
run cmds w (albumsetname a b) = cmd_albumsetname w a b
run cmds w (albumsetartist a b) = cmd_albumsetartist w a b
run cmds w (albumsetyear a b) = cmd_albumsetyear w a b
run cmds w artistlist = cmd_artistlist w
run cmds w (artistsearch a) = cmd_artistsearch w a
run cmds w (artiststag a) = cmd_artiststag w a
run cmds w (artistget a) = cmd_artistget w a
run cmds w (artistadd a) = cmd_artistadd w a
run cmds w (artistsetname a b) = cmd_artistsetname w a b
run cmds w (artistmerge a b) = cmd_artistmerge w a b
run cmds w (artistdel a) = cmd_artistdel w a
run cmds w sfilterlist = cmd_sfilterlist w
run cmds w (sfilterget a) = cmd_sfilterget w a
run cmds w (sfilter2id a) = cmd_sfilter2id w a
run cmds w (sfilteradd a) = cmd_sfilteradd w a
run cmds w (sfiltersetname a b) = cmd_sfiltersetname w a b
run cmds w (sfiltersetfilter a b) = cmd_sfiltersetfilter w a b
run cmds w (sfilterdel a) = cmd_sfilterdel w a
run cmds w help = cmd_help w cmds
