-- ===== src/Commands/Albums.antt =====
-- proto_cmd.c: the handlers on albums, artists and stored filters.
use dudld.Common.{ℕ, ◌++◌, Bytes, codes}
use dudld.ParseExpr.Parser.{expr_parse_str, parsed, failed, gave_up}
use dudld.ParseExpr.Text.{print_int}
use dudld.Player.State.{Pipeline}
use dudld.Format.Dump.{
  dump_album, dump_albums, dump_artist, dump_artists, dump_sfilter, dump_sfilters,
}
use dudld.Commands.Session.{Database, World, is_negative, is_nonzero}
use dudld.Commands.Handlers.{Handler, reply_list, reply_record, reply_number, reply_done}
use dudld.Commands.Tracks.{bad_filter}

module _ {g : Pipeline} {d : Database} (w : World g) where
  unfoldable pub cmd_albumlist : Handler g d
  cmd_albumlist = reply_list w (dump_albums w.host) d.albums_list

  unfoldable pub cmd_albumsartist : ℕ → Handler g d
  cmd_albumsartist id = reply_list w (dump_albums w.host) (d.albums_artistid id)

  unfoldable pub cmd_albumstag : ℕ → Handler g d
  cmd_albumstag tid = reply_list w (dump_albums w.host) (d.albums_tag tid)

  unfoldable pub cmd_albumsearch : Bytes → Handler g d
  cmd_albumsearch pat = reply_list w (dump_albums w.host) (d.albums_search pat)

  unfoldable pub cmd_albumget : ℕ → Handler g d
  cmd_albumget id =
      reply_record w (dump_album w.host) (d.album_get id) (codes "580") (codes "failed")

  unfoldable pub cmd_albumsetname : ℕ → Bytes → Handler g d
  cmd_albumsetname id name =
      reply_done w is_nonzero (d.album_setname id name) (codes "511") (codes "failed")
        (codes "name changed")

  unfoldable pub cmd_albumsetartist : ℕ → ℕ → Handler g d
  cmd_albumsetartist album artist =
      reply_done w is_nonzero (d.album_setartist album artist) (codes "511") (codes "failed")
        (codes "artist changed")

  unfoldable pub cmd_albumsetyear : ℕ → ℕ → Handler g d
  cmd_albumsetyear album year =
      reply_done w is_nonzero (d.album_setyear album year) (codes "511") (codes "failed")
        (codes "year changed")

  unfoldable pub cmd_artistlist : Handler g d
  cmd_artistlist = reply_list w (dump_artists w.host) d.artists_list

  unfoldable pub cmd_artistsearch : Bytes → Handler g d
  cmd_artistsearch pat = reply_list w (dump_artists w.host) (d.artists_search pat)

  unfoldable pub cmd_artiststag : ℕ → Handler g d
  cmd_artiststag tid = reply_list w (dump_artists w.host) (d.artists_tag tid)

  unfoldable pub cmd_artistget : ℕ → Handler g d
  cmd_artistget id =
      reply_record w (dump_artist w.host) (d.artist_get id) (codes "590") (codes "failed")

  unfoldable pub cmd_artistadd : Bytes → Handler g d
  cmd_artistadd name = reply_number w is_negative (d.artist_add name) (codes "511") (codes "failed")

  unfoldable pub cmd_artistsetname : ℕ → Bytes → Handler g d
  cmd_artistsetname id name =
      reply_done w is_nonzero (d.artist_setname id name) (codes "511") (codes "failed")
        (codes "name changed")

  unfoldable pub cmd_artistmerge : ℕ → ℕ → Handler g d
  cmd_artistmerge from to =
      reply_done w is_nonzero (d.artist_merge from to) (codes "511") (codes "failed")
        (codes "merged artist " ++ (print_int from ++ (codes " into " ++ print_int to)))

  unfoldable pub cmd_artistdel : ℕ → Handler g d
  cmd_artistdel id =
      reply_done w is_nonzero (d.artist_del id) (codes "511") (codes "failed")
        (codes "artist deleted")

  unfoldable pub cmd_sfilterlist : Handler g d
  cmd_sfilterlist = reply_list w (dump_sfilters w.host) d.sfilters_list

  unfoldable pub cmd_sfilterget : ℕ → Handler g d
  cmd_sfilterget id =
      reply_record w (dump_sfilter w.host) (d.sfilter_get id) (codes "511")
        (codes "no such sfilter")

  unfoldable pub cmd_sfilter2id : Bytes → Handler g d
  cmd_sfilter2id name =
      reply_number w is_negative (d.sfilter_id name) (codes "511") (codes "no such sfilter")

  unfoldable pub cmd_sfilteradd : Bytes → Handler g d
  cmd_sfilteradd name =
      reply_number w is_negative (d.sfilter_add name) (codes "511") (codes "failed")

  unfoldable pub cmd_sfiltersetname : ℕ → Bytes → Handler g d
  cmd_sfiltersetname id name =
      reply_done w is_nonzero (d.sfilter_setname id name) (codes "511") (codes "failed")
        (codes "name changed")

  unfoldable pub cmd_sfiltersetfilter : ℕ → Bytes → Handler g d
  cmd_sfiltersetfilter id filter code s = elim (expr_parse_str filter) [
    | parsed e ↦
        reply_done w is_nonzero (d.sfilter_setfilter id filter) (codes "511") (codes "failed")
          (codes "filter changed") code s
    | failed m pos ↦ bad_filter w m pos s
    | gave_up ↦ s
  ]

  unfoldable pub cmd_sfilterdel : ℕ → Handler g d
  cmd_sfilterdel id =
      reply_done w is_nonzero (d.sfilter_del id) (codes "511") (codes "failed") (codes "deleted")
