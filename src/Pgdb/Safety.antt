-- ===== src/Pgdb/Safety.antt =====
-- What clients can make pgdb send to PostgreSQL.
use dudld.Common.{ℕ, ◌≡◌, refl, arith, true, false, ◌==◌, Bytes, [], ◌∷◌, some, All}
use dudld.Common.Char.{isalnum}
use dudld.ParseExpr.Syntax.{Expr}
use dudld.Commands.Preserving.{Preserves}
use dudld.Pgdb.Server.{Server, Db, M}
use dudld.Pgdb.Users.{shown}
use dudld.Pgdb.Random.{random_filter}
use dudld.Pgdb.Database.{pgdb}
use dudld.Sql.Reading.{outside, Reads, read_text, read_byte}
use dudld.Pgdb.Runs.{IsClean, Keeps}
use dudld.Pgdb.Kept.Merge.{artist_merge-Left}
use dudld.Pgdb.Kept.Users.{
  Keeps-user_getn, Keeps-users_list, Keeps-user_get, Keeps-user_id, Keeps-user_add,
  Keeps-user_setpass, Keeps-user_setright, Keeps-user_del, IsQuotable,
}
use dudld.Pgdb.Kept.Tags.{
  Keeps-tags_list, Keeps-tag_get, Keeps-tags_artist, Keeps-tag_id, Keeps-tag_add, Keeps-tag_setname,
  Keeps-tag_setdesc, Keeps-tag_del, Keeps-track_tags, Keeps-track_tagadd, Keeps-track_tagdel,
  Keeps-track_tagged, Keeps-sfilters_list, Keeps-sfilter_get, Keeps-sfilter_id, Keeps-sfilter_add,
  Keeps-sfilter_setname, Keeps-sfilter_setfilter, Keeps-sfilter_del,
}
use dudld.Pgdb.Kept.Albums.{
  Keeps-albums_list, Keeps-albums_artistid, Keeps-albums_tag, Keeps-albums_search, Keeps-album_get,
  Keeps-album_setname, Keeps-album_setartist, Keeps-album_setyear, Keeps-artists_list,
  Keeps-artists_search, Keeps-artists_tag, Keeps-artist_get, Keeps-artist_add, Keeps-artist_setname,
  Keeps-artist_del,
}
use dudld.Pgdb.Kept.Tracks.{
  Keeps-tracks, Keeps-tracks_search, Keeps-tracks_searchf, Keeps-tracks_albumid,
  Keeps-tracks_artistid, Keeps-track_get, Keeps-track_id, Keeps-track_setname,
  Keeps-track_setartist,
}
use dudld.Pgdb.Kept.Random.{
  Keeps-random_setfilter, Keeps-random_filterstat, Keeps-random_top, Keeps-history_list,
  Keeps-history_tracklist,
}
use dudld.Pgdb.Kept.Queues.{
  Keeps-queue_list, Keeps-queue_get, Keeps-queue_add, Keeps-queue_del, Keeps-queue_clear,
  Keeps-queue_sum,
}

-- Letters and digits, as val_name takes them.
abbrev pub IsName : Bytes → Type 0
IsName s = All (λ c. isalnum c ≡ true) s

IsName-IsQuotable : (s : Bytes) → IsName s → IsQuotable s
unfolding read_text read_byte isalnum
IsName-IsQuotable [] h = refl
IsName-IsQuotable (c ∷ s) (h, hs) =
    let e : (c == b'\'') ≡ false = ground (arith, h) in rw e (IsName-IsQuotable s hs)

-- The texts that were sent are statements, however many results there are.
abbrev pub IsSafe : {p : Server} → Db p → Type 0
IsSafe s = (k : ℕ) × IsClean k s

safe :
    {p : Server} {A : Type 0} {m : M p A} (s : Db p)
    → ((k : ℕ) → Keeps k m)
    → IsSafe s
    → IsSafe (m s).0
safe s h (k, c) = (k, (h k).at s c)

-- The callback that db_init is given and the SQL of filters send statements and clear their results, and what
-- crypt makes of a password holds no quote.
pub record Sends {p : Server} (opened_cb : Db p → Db p) (sql_expr : Expr → M p Bytes) : Type 0 where
  pub opened : (k : ℕ) (s : Db p) → IsClean k s → IsClean k (opened_cb s)
  pub written :
      (e : Expr) (k : ℕ) (s : Db p)
      → IsClean k s
      → IsClean k (sql_expr e s).0 × Reads outside (sql_expr e s).1
  pub crypted : (pass salt : Bytes) → IsQuotable (shown (p.crypt pass salt))

module _ {p : Server} (opened_cb : Db p → Db p) (salt : ℕ → ℕ) (sql_expr : Expr → M p Bytes)
    (h : Sends opened_cb sql_expr) where
  pub pgdb-Preserves : Preserves (pgdb p opened_cb salt sql_expr) IsName IsSafe
  pgdb-Preserves = record {
    user_getn = λ a s. safe s (λ k. Keeps-user_getn opened_cb h.opened k a);
    users_list = λ s. safe s (λ k. Keeps-users_list opened_cb h.opened k);
    user_get = λ a s. safe s (λ k. Keeps-user_get opened_cb h.opened k a);
    user_id = λ a s. safe s (λ k. Keeps-user_id opened_cb h.opened k a);
    user_add = λ a b c s n.
        safe s (λ k.
          Keeps-user_add opened_cb h.opened k salt a b c (IsName-IsQuotable a n) (h.crypted c));
    user_setpass =
        λ a b s. safe s (λ k. Keeps-user_setpass opened_cb h.opened k salt a b (h.crypted b));
    user_setright = λ a b s. safe s (λ k. Keeps-user_setright opened_cb h.opened k a b);
    user_del = λ a s. safe s (λ k. Keeps-user_del opened_cb h.opened k a);
    tracks = λ s. safe s (λ k. Keeps-tracks opened_cb h.opened k);
    tracks_search = λ a s. safe s (λ k. Keeps-tracks_search opened_cb h.opened k a);
    tracks_searchf = λ a s.
        safe s (λ k. Keeps-tracks_searchf opened_cb h.opened k sql_expr a (λ e. h.written e k));
    tracks_albumid = λ a s. safe s (λ k. Keeps-tracks_albumid opened_cb h.opened k a);
    tracks_artistid = λ a s. safe s (λ k. Keeps-tracks_artistid opened_cb h.opened k a);
    track_get = λ a s. safe s (λ k. Keeps-track_get opened_cb h.opened k a);
    track_id = λ a b s. safe s (λ k. Keeps-track_id opened_cb h.opened k a b);
    track_setname = λ a b s. safe s (λ k. Keeps-track_setname opened_cb h.opened k a b);
    track_setartist = λ a b s. safe s (λ k. Keeps-track_setartist opened_cb h.opened k a b);
    random_filter = λ s c. unfold random_filter in c;
    random_setfilter = λ a s.
        safe s
          (λ k. Keeps-random_setfilter opened_cb h.opened k sql_expr (λ e. h.written e k) (some a));
    random_filterstat = λ s. safe s (λ k. Keeps-random_filterstat opened_cb h.opened k);
    random_top = λ a s. safe s (λ k. Keeps-random_top opened_cb h.opened k a);
    history_list = λ a s. safe s (λ k. Keeps-history_list opened_cb h.opened k a);
    history_tracklist = λ a b s. safe s (λ k. Keeps-history_tracklist opened_cb h.opened k a b);
    queue_list = λ s. safe s (λ k. Keeps-queue_list opened_cb h.opened k);
    queue_get = λ a s. safe s (λ k. Keeps-queue_get opened_cb h.opened k a);
    queue_add = λ a b s. safe s (λ k. Keeps-queue_add opened_cb h.opened k a b);
    queue_del = λ a b s. safe s (λ k. Keeps-queue_del opened_cb h.opened k a b);
    queue_clear = λ s. safe s (λ k. Keeps-queue_clear opened_cb h.opened k);
    queue_sum = λ s. safe s (λ k. Keeps-queue_sum opened_cb h.opened k);
    tags_list = λ s. safe s (λ k. Keeps-tags_list opened_cb h.opened k);
    tag_get = λ a s. safe s (λ k. Keeps-tag_get opened_cb h.opened k a);
    tags_artist = λ a s. safe s (λ k. Keeps-tags_artist opened_cb h.opened k a);
    tag_id = λ a s. safe s (λ k. Keeps-tag_id opened_cb h.opened k a);
    tag_add = λ a s. safe s (λ k. Keeps-tag_add opened_cb h.opened k a);
    tag_setname = λ a b s. safe s (λ k. Keeps-tag_setname opened_cb h.opened k a b);
    tag_setdesc = λ a b s. safe s (λ k. Keeps-tag_setdesc opened_cb h.opened k a b);
    tag_del = λ a s. safe s (λ k. Keeps-tag_del opened_cb h.opened k a);
    track_tags = λ a s. safe s (λ k. Keeps-track_tags opened_cb h.opened k a);
    track_tagadd = λ a b s. safe s (λ k. Keeps-track_tagadd opened_cb h.opened k a b);
    track_tagdel = λ a b s. safe s (λ k. Keeps-track_tagdel opened_cb h.opened k a b);
    track_tagged = λ a b s. safe s (λ k. Keeps-track_tagged opened_cb h.opened k a b);
    albums_list = λ s. safe s (λ k. Keeps-albums_list opened_cb h.opened k);
    albums_artistid = λ a s. safe s (λ k. Keeps-albums_artistid opened_cb h.opened k a);
    albums_tag = λ a s. safe s (λ k. Keeps-albums_tag opened_cb h.opened k a);
    albums_search = λ a s. safe s (λ k. Keeps-albums_search opened_cb h.opened k a);
    album_get = λ a s. safe s (λ k. Keeps-album_get opened_cb h.opened k a);
    album_setname = λ a b s. safe s (λ k. Keeps-album_setname opened_cb h.opened k a b);
    album_setartist = λ a b s. safe s (λ k. Keeps-album_setartist opened_cb h.opened k a b);
    album_setyear = λ a b s. safe s (λ k. Keeps-album_setyear opened_cb h.opened k a b);
    artists_list = λ s. safe s (λ k. Keeps-artists_list opened_cb h.opened k);
    artists_search = λ a s. safe s (λ k. Keeps-artists_search opened_cb h.opened k a);
    artists_tag = λ a s. safe s (λ k. Keeps-artists_tag opened_cb h.opened k a);
    artist_get = λ a s. safe s (λ k. Keeps-artist_get opened_cb h.opened k a);
    artist_add = λ a s. safe s (λ k. Keeps-artist_add opened_cb h.opened k a);
    artist_setname = λ a b s. safe s (λ k. Keeps-artist_setname opened_cb h.opened k a b);
    artist_merge = λ a b s (k, c). (artist_merge-Left opened_cb h.opened k a b s c).1;
    artist_del = λ a s. safe s (λ k. Keeps-artist_del opened_cb h.opened k a);
    sfilters_list = λ s. safe s (λ k. Keeps-sfilters_list opened_cb h.opened k);
    sfilter_get = λ a s. safe s (λ k. Keeps-sfilter_get opened_cb h.opened k a);
    sfilter_id = λ a s. safe s (λ k. Keeps-sfilter_id opened_cb h.opened k a);
    sfilter_add = λ a s. safe s (λ k. Keeps-sfilter_add opened_cb h.opened k a);
    sfilter_setname = λ a b s. safe s (λ k. Keeps-sfilter_setname opened_cb h.opened k a b);
    sfilter_setfilter = λ a b s. safe s (λ k. Keeps-sfilter_setfilter opened_cb h.opened k a b);
    sfilter_del = λ a s. safe s (λ k. Keeps-sfilter_del opened_cb h.opened k a);
  }
