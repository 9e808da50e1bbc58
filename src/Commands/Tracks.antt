-- ===== src/Commands/Tracks.antt =====
-- proto_cmd.c: the handlers on tracks, the filter of random play, and the history.
use dudld.Common.{ℕ, [], ◌++◌, Bytes, Option, none, some, codes}
use dudld.Common.Memory.{c_string}
use dudld.ParseExpr.Syntax.{Message}
use dudld.ParseExpr.Parser.{expr_parse_str, parsed, failed, gave_up}
use dudld.ParseExpr.Print.{expr_fmt}
use dudld.ParseExpr.Messages.{shown_message}
use dudld.ParseExpr.Text.{print_int}
use dudld.Player.State.{Pipeline}
use dudld.Format.Dump.{dump_track, dump_tracks, dump_history}
use dudld.Commands.Session.{Database, World, Session, is_negative, is_nonzero}
use dudld.Commands.Handlers.{Handler, say, reply_list, reply_record, reply_number, reply_done}

module _ {g : Pipeline} {d : Database} (w : World g) where
  unfoldable pub cmd_trackcount : Handler g d
  cmd_trackcount = reply_number w is_negative d.tracks (codes "510") (codes "internal error")

  unfoldable pub cmd_tracksearch : Bytes → Handler g d
  cmd_tracksearch pat = reply_list w (dump_tracks w.host) (d.tracks_search pat)

  -- The answer to a filter that does not parse. expr_parse_str never gives up.
  unfoldable pub bad_filter : Option Message → ℕ → Session g d → Session g d
  bad_filter m pos s =
      say w (codes "511")
        (codes "error at pos " ++ (print_int pos ++ (codes " in filter: " ++ shown_message m))) s

  unfoldable pub cmd_tracksearchf : Bytes → Handler g d
  cmd_tracksearchf filter code s = elim (expr_parse_str filter) [
    | parsed e ↦ reply_list w (dump_tracks w.host) (d.tracks_searchf e) code s
    | failed m pos ↦ bad_filter m pos s
    | gave_up ↦ s
  ]

  unfoldable pub cmd_tracksalbum : ℕ → Handler g d
  cmd_tracksalbum id = reply_list w (dump_tracks w.host) (d.tracks_albumid id)

  unfoldable pub cmd_tracksartist : ℕ → Handler g d
  cmd_tracksartist id = reply_list w (dump_tracks w.host) (d.tracks_artistid id)

  unfoldable pub cmd_trackget : ℕ → Handler g d
  cmd_trackget id =
      reply_record w (dump_track w.host) (d.track_get id) (codes "511") (codes "no such track")

  unfoldable pub cmd_track2id : ℕ → ℕ → Handler g d
  cmd_track2id id pos =
      reply_number w is_negative (d.track_id id pos) (codes "501") (codes "no such track found")

  unfoldable pub cmd_tracksetname : ℕ → Bytes → Handler g d
  cmd_tracksetname id name =
      reply_done w is_nonzero (d.track_setname id name) (codes "511") (codes "failed")
        (codes "name changed")

  unfoldable pub cmd_tracksetartist : ℕ → ℕ → Handler g d
  cmd_tracksetartist track artist =
      reply_done w is_nonzero (d.track_setartist track artist) (codes "511") (codes "failed")
        (codes "artist changed")

  -- The array on the stack has 1024 bytes.
  unfoldable pub cmd_filter : Handler g d
  cmd_filter code s =
      let (db, e) = d.random_filter s.db in
      let t = record s { db = db } in
      elim e [
        | none ↦ say w code [] t
        | some x ↦ say w code (c_string (expr_fmt x w.array 0 1024).0.bytes) t
      ]

  unfoldable pub cmd_filterset : Bytes → Handler g d
  cmd_filterset filter code s = elim (expr_parse_str filter) [
    | parsed e ↦
        reply_done w is_nonzero (d.random_setfilter e) (codes "511")
          (codes "failed to apply (correct) filter") (codes "filter changed") code s
    | failed m pos ↦ bad_filter m pos s
    | gave_up ↦ s
  ]

  unfoldable pub cmd_filterstat : Handler g d
  cmd_filterstat =
      reply_number w is_negative d.random_filterstat (codes "511") (codes "filter error")

  unfoldable pub cmd_filtertop : ℕ → Handler g d
  cmd_filtertop num = reply_list w (dump_tracks w.host) (d.random_top num)

  unfoldable pub cmd_history : ℕ → Handler g d
  cmd_history num = reply_list w (dump_history w.host) (d.history_list num)

  unfoldable pub cmd_historytrack : ℕ → ℕ → Handler g d
  cmd_historytrack id num = reply_list w (dump_history w.host) (d.history_tracklist id num)
