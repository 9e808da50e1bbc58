-- ===== src/Pgdb/Database.antt =====
-- The functions of pgdb as the database of the commands. What the program computes of random() for a salt
-- is a parameter, and so is the SQL of a filter.
use dudld.Common.{ℕ, Bytes, none, some}
use dudld.ParseExpr.Syntax.{Expr}
use dudld.Commands.Session.{Database}
use dudld.Pgdb.Server.{Server, Db, M}
use dudld.Pgdb.Users.{user_ok}
use dudld.Pgdb.Users.{
  user_getn, users_list, user_get, user_id, user_add, user_setpass, user_setright, user_del,
}
use dudld.Pgdb.Tags.{
  tags_list, tag_get, tags_artist, tag_id, tag_add, tag_setname, tag_setdesc, tag_del, track_tags,
  track_tagadd, track_tagdel, track_tagged, sfilters_list, sfilter_get, sfilter_id, sfilter_add,
  sfilter_setname, sfilter_setfilter, sfilter_del,
}
use dudld.Pgdb.Albums.{
  albums_list, albums_artistid, albums_tag, albums_search, album_get, album_setname,
  album_setartist, album_setyear, artists_list, artists_search, artists_tag, artist_get, artist_add,
  artist_setname, artist_merge, artist_del,
}
use dudld.Pgdb.Tracks.{
  tracks, tracks_search, tracks_searchf, tracks_albumid, tracks_artistid, track_get, track_id,
  track_setname, track_setartist,
}
use dudld.Pgdb.Random.{
  random_filter, random_setfilter, random_filterstat, random_top, history_list, history_tracklist,
}
use dudld.Pgdb.Queues.{queue_list, queue_get, queue_add, queue_del, queue_clear, queue_sum}

abbrev pub pgdb : (p : Server) → (Db p → Db p) → (ℕ → ℕ) → (Expr → M p Bytes) → Database
pgdb p opened_cb salt sql_expr = record {
  S = Db p;
  user_ok = user_ok p;
  user_getn = user_getn p opened_cb;
  users_list = users_list p opened_cb;
  user_get = user_get p opened_cb;
  user_id = user_id p opened_cb;
  user_add = user_add p opened_cb salt;
  user_setpass = user_setpass p opened_cb salt;
  user_setright = user_setright p opened_cb;
  user_del = user_del p opened_cb;
  tracks = tracks p opened_cb;
  tracks_search = tracks_search p opened_cb;
  tracks_searchf = tracks_searchf p opened_cb sql_expr;
  tracks_albumid = tracks_albumid p opened_cb;
  tracks_artistid = tracks_artistid p opened_cb;
  track_get = λ id s.
      let (t, o) = track_get p opened_cb id s in
      (t, elim o [ none ↦ none | some x ↦ some x.track ]);
  track_id = track_id p opened_cb;
  track_setname = track_setname p opened_cb;
  track_setartist = track_setartist p opened_cb;
  random_filter = random_filter p opened_cb;
  random_setfilter = λ e. random_setfilter p opened_cb sql_expr (some e);
  random_filterstat = random_filterstat p opened_cb;
  random_top = random_top p opened_cb;
  history_list = history_list p opened_cb;
  history_tracklist = history_tracklist p opened_cb;
  queue_list = queue_list p opened_cb;
  queue_get = queue_get p opened_cb;
  queue_add = queue_add p opened_cb;
  queue_del = queue_del p opened_cb;
  queue_clear = queue_clear p opened_cb;
  queue_sum = queue_sum p opened_cb;
  tags_list = tags_list p opened_cb;
  tag_get = tag_get p opened_cb;
  tags_artist = tags_artist p opened_cb;
  tag_id = tag_id p opened_cb;
  tag_add = tag_add p opened_cb;
  tag_setname = tag_setname p opened_cb;
  tag_setdesc = tag_setdesc p opened_cb;
  tag_del = tag_del p opened_cb;
  track_tags = track_tags p opened_cb;
  track_tagadd = track_tagadd p opened_cb;
  track_tagdel = track_tagdel p opened_cb;
  track_tagged = track_tagged p opened_cb;
  albums_list = albums_list p opened_cb;
  albums_artistid = albums_artistid p opened_cb;
  albums_tag = albums_tag p opened_cb;
  albums_search = albums_search p opened_cb;
  album_get = album_get p opened_cb;
  album_setname = album_setname p opened_cb;
  album_setartist = album_setartist p opened_cb;
  album_setyear = album_setyear p opened_cb;
  artists_list = artists_list p opened_cb;
  artists_search = artists_search p opened_cb;
  artists_tag = artists_tag p opened_cb;
  artist_get = artist_get p opened_cb;
  artist_add = artist_add p opened_cb;
  artist_setname = artist_setname p opened_cb;
  artist_merge = artist_merge p opened_cb;
  artist_del = artist_del p opened_cb;
  sfilters_list = sfilters_list p opened_cb;
  sfilter_get = sfilter_get p opened_cb;
  sfilter_id = sfilter_id p opened_cb;
  sfilter_add = sfilter_add p opened_cb;
  sfilter_setname = sfilter_setname p opened_cb;
  sfilter_setfilter = sfilter_setfilter p opened_cb;
  sfilter_del = sfilter_del p opened_cb;
}
