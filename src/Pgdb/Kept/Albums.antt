-- ===== src/Pgdb/Kept/Albums.antt =====
-- pgdb/artist.c and pgdb/album.c send statements and clear their results, but for artist_merge.
use dudld.Common.{ℕ, refl, Bytes}
use dudld.Pgdb.Server.{Server, Db}
use dudld.Sql.Reading.{outside}
use dudld.Pgdb.Statement.{query_place}
use dudld.Pgdb.Runs.{IsClean, Keeps, Runs-pure, Keeps-bind}
use dudld.Pgdb.Kept.{Keeps-select-pure, Keeps-command, Keeps-iterate, Keeps-nextval, Keeps-with_id}
use dudld.Pgdb.Albums.{
  album_get, album_setartist, album_setname, album_setyear, albums_artistid, albums_list,
  albums_search, albums_tag, artist_add, artist_del, artist_get, artist_setname, artists_list,
  artists_search, artists_tag, iterate_artists, iterate_albums,
}

module _ {p : Server} (opened_cb : Db p → Db p)
    (opened : (k : ℕ) (s : Db p) → IsClean k s → IsClean k (opened_cb s)) (k : ℕ) where
  pub Keeps-artist_get : (id : ℕ) → Keeps k (artist_get p opened_cb id)
  unfolding artist_get query_place
  Keeps-artist_get id = Keeps-select-pure opened_cb opened k _ _ _ (outside, refl)

  pub Keeps-artists_list : Keeps k (artists_list p opened_cb)
  unfolding artists_list iterate_artists query_place
  Keeps-artists_list = Keeps-iterate opened_cb opened k _ _ (outside, refl) (λ r tup. Runs-pure _ _)

  pub Keeps-artists_tag : (tid : ℕ) → Keeps k (artists_tag p opened_cb tid)
  unfolding artists_tag iterate_artists query_place
  Keeps-artists_tag tid =
      Keeps-iterate opened_cb opened k _ _ (outside, refl) (λ r tup. Runs-pure _ _)

  pub Keeps-artists_search : (substr : Bytes) → Keeps k (artists_search p opened_cb substr)
  unfolding artists_search iterate_artists query_place
  Keeps-artists_search substr =
      Keeps-iterate opened_cb opened k _ _ (outside, refl) (λ r tup. Runs-pure _ _)

  pub Keeps-artist_add : (name : Bytes) → Keeps k (artist_add p opened_cb name)
  unfolding artist_add query_place
  Keeps-artist_add name = Keeps-bind (Keeps-nextval opened_cb opened k _ (outside, refl)) (
      Keeps-with_id opened_cb opened k _
        (λ id. Keeps-command opened_cb opened k _ _ _ (outside, refl)))

  pub Keeps-artist_setname : (id : ℕ) (name : Bytes) → Keeps k (artist_setname p opened_cb id name)
  unfolding artist_setname query_place
  Keeps-artist_setname id name = Keeps-command opened_cb opened k _ _ _ (outside, refl)

  pub Keeps-artist_del : (id : ℕ) → Keeps k (artist_del p opened_cb id)
  unfolding artist_del query_place
  Keeps-artist_del id = Keeps-command opened_cb opened k _ _ _ (outside, refl)

  pub Keeps-album_get : (id : ℕ) → Keeps k (album_get p opened_cb id)
  unfolding album_get query_place
  Keeps-album_get id = Keeps-select-pure opened_cb opened k _ _ _ (outside, refl)

  pub Keeps-albums_list : Keeps k (albums_list p opened_cb)
  unfolding albums_list iterate_albums query_place
  Keeps-albums_list = Keeps-iterate opened_cb opened k _ _ (outside, refl) (λ r tup. Runs-pure _ _)

  pub Keeps-albums_artistid : (artistid : ℕ) → Keeps k (albums_artistid p opened_cb artistid)
  unfolding albums_artistid iterate_albums query_place
  Keeps-albums_artistid artistid =
      Keeps-iterate opened_cb opened k _ _ (outside, refl) (λ r tup. Runs-pure _ _)

  pub Keeps-albums_tag : (tid : ℕ) → Keeps k (albums_tag p opened_cb tid)
  unfolding albums_tag iterate_albums query_place
  Keeps-albums_tag tid =
      Keeps-iterate opened_cb opened k _ _ (outside, refl) (λ r tup. Runs-pure _ _)

  pub Keeps-albums_search : (substr : Bytes) → Keeps k (albums_search p opened_cb substr)
  unfolding albums_search iterate_albums query_place
  Keeps-albums_search substr =
      Keeps-iterate opened_cb opened k _ _ (outside, refl) (λ r tup. Runs-pure _ _)

  pub Keeps-album_setname : (id : ℕ) (name : Bytes) → Keeps k (album_setname p opened_cb id name)
  unfolding album_setname query_place
  Keeps-album_setname id name = Keeps-command opened_cb opened k _ _ _ (outside, refl)

  pub Keeps-album_setartist :
      (id : ℕ) (artistid : ℕ) → Keeps k (album_setartist p opened_cb id artistid)
  unfolding album_setartist query_place
  Keeps-album_setartist id artistid = Keeps-command opened_cb opened k _ _ _ (outside, refl)

  pub Keeps-album_setyear : (id : ℕ) (year : ℕ) → Keeps k (album_setyear p opened_cb id year)
  unfolding album_setyear query_place
  Keeps-album_setyear id year = Keeps-command opened_cb opened k _ _ _ (outside, refl)
