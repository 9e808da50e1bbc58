-- ===== src/Pgdb/Kept/Tracks.antt =====
-- pgdb/track.c sends statements and clears its results.
use dudld.Common.{ℕ, ◌≡◌, refl, Bool, true, false, some, Bytes, codes, List, [], ◌∷◌, if◌then◌else◌}
use dudld.Pgdb.Server.{Server, Db, M, ◌>>=◌, Part, sql}
use dudld.Sql.Reading.{Place, inside, outside, dash, Reads}
use dudld.Pgdb.Statement.{query_place, raw_place}
use dudld.Pgdb.Runs.{IsClean, Keeps, Runs-pure}
use dudld.Pgdb.Kept.{Keeps-select-pure, Keeps-command, Keeps-iterate}
use dudld.ParseExpr.Syntax.{Expr}
use dudld.Pgdb.Rows.{Stored}
use dudld.Pgdb.Tracks.{
  track_exists, track_get, track_id, track_setartist, track_setname, tracks, tracks_albumid,
  tracks_artistid, tracks_search, tracks_searchf, tracks_where, iterate_tracks, track_row,
  track_mkpath,
}

module _ {p : Server} (opened_cb : Db p → Db p)
    (opened : (k : ℕ) (s : Db p) → IsClean k s → IsClean k (opened_cb s)) (k : ℕ) where
  pub Keeps-track_get : (id : ℕ) → Keeps k (track_get p opened_cb id)
  unfolding track_get query_place
  Keeps-track_get id = Keeps-select-pure opened_cb opened k _ _ _ (outside, refl)

  pub Keeps-tracks_albumid : (albumid : ℕ) → Keeps k (tracks_albumid p opened_cb albumid)
  unfolding tracks_albumid iterate_tracks track_row query_place
  Keeps-tracks_albumid albumid =
      Keeps-iterate opened_cb opened k _ _ (outside, refl) (λ r tup. Runs-pure _ _)

  pub Keeps-tracks_artistid : (artistid : ℕ) → Keeps k (tracks_artistid p opened_cb artistid)
  unfolding tracks_artistid iterate_tracks track_row query_place
  Keeps-tracks_artistid artistid =
      Keeps-iterate opened_cb opened k _ _ (outside, refl) (λ r tup. Runs-pure _ _)

  pub Keeps-tracks_search : (substr : Bytes) → Keeps k (tracks_search p opened_cb substr)
  unfolding tracks_search iterate_tracks track_row query_place
  Keeps-tracks_search substr =
      Keeps-iterate opened_cb opened k _ _ (outside, refl) (λ r tup. Runs-pure _ _)

  pub Keeps-track_setname : (id : ℕ) (title : Bytes) → Keeps k (track_setname p opened_cb id title)
  unfolding track_setname query_place
  Keeps-track_setname id title = Keeps-command opened_cb opened k _ _ _ (outside, refl)

  pub Keeps-track_setartist :
      (id : ℕ) (artistid : ℕ) → Keeps k (track_setartist p opened_cb id artistid)
  unfolding track_setartist query_place
  Keeps-track_setartist id artistid = Keeps-command opened_cb opened k _ _ _ (outside, refl)

  pub Keeps-track_id : (id : ℕ) (num : ℕ) → Keeps k (track_id p opened_cb id num)
  unfolding track_id query_place
  Keeps-track_id id num = Keeps-select-pure opened_cb opened k _ _ _ (outside, refl)

  pub Keeps-tracks : Keeps k (tracks p opened_cb)
  unfolding tracks query_place
  Keeps-tracks = Keeps-select-pure opened_cb opened k _ _ _ (outside, refl)

  -- A text that is a part of a statement.
  Keeps-tracks_where : (s : Bytes) → Reads outside s → Keeps k (tracks_where p opened_cb s)
  unfolding tracks_where iterate_tracks track_row query_place
  Keeps-tracks_where [] h = Runs-pure k []
  Keeps-tracks_where (c ∷ s) (q, h) =
      Keeps-iterate opened_cb opened k _ _
        ((ordered q).0, raw_place outside q (c ∷ s) order h (ordered q).1) (λ r tup. Runs-pure _ _)
    where
      order : List Part
      order = sql (codes " ORDER BY LOWER(album_artist_name), LOWER(album_name), album_pos") ∷ []

      ordered : (q : Place) → (r : Place) × (query_place q order ≡ some r)
      ordered outside = (outside, refl)
      ordered dash = (outside, refl)
      ordered inside = (inside, refl)

  pub Keeps-tracks_searchf :
      (sql_expr : Expr → M p Bytes) (e : Expr)
      → ((e : Expr) (s : Db p)
          → IsClean k s
          → IsClean k (sql_expr e s).0 × Reads outside (sql_expr e s).1)
      → Keeps k (tracks_searchf p opened_cb sql_expr e)
  unfolding tracks_searchf ◌>>=◌
  Keeps-tracks_searchf sql_expr e w = record {
    at = λ s h. (Keeps-tracks_where _ (w e s h).1).at _ (w e s h).0;
  }

  pub Keeps-track_exists : (t : Stored) → Keeps k (track_exists p opened_cb t)
  unfolding track_exists query_place
  Keeps-track_exists t = record {
    at = λ s h.
        by_file s h _ ((Keeps-command opened_cb opened k _ _ _ (outside, refl)).at s h)
          (p.readable (track_mkpath p t) s.pg);
  }
    where
      by_file :
          (s : Db p)
          → IsClean k s
          → (u : Db p × Bool) → IsClean k u.0
          → (b : Bool) → IsClean k (if b then (s, true) else u).0
      by_file s h u g true = h
      by_file s h u g false = g
