-- ===== src/Pgdb/Rows.antt =====
-- pgdb: the functions that make a record of a row of a result. The gains of tracks and albums are left out.
use dudld.Common.{ℕ, ◌*◌, ◌-◌, ◌%◌, ◌^◌, ltb, if◌then◌else◌, Bytes, Option, none, some, codes}
use dudld.Format.Records.{User, Tag, Artist, Album, Track, Sfilter}
use dudld.Pgdb.Server.{Server, Result, pgint, pgint64}
use dudld.Pgdb.Connection.{pgstring}

infixl 5 ◌>>=◌
abbrev ◌>>=◌ : {A B : Type 0} → Option A → (A → Option B) → Option B
none >>= f = none
some a >>= f = f a

-- `tup >= PQntuples( res )`
unfoldable pub in_rows : {A : Type 0} → Result → ℕ → Option A → Option A
in_rows r tup o = if ltb tup r.ntuples then o else none

-- A track with what the player needs of it.
pub record Stored : Type 0 where
  pub track : Track
  pub fname : Bytes
  pub lastplay : ℕ
  pub seg_from : ℕ
  pub seg_to : ℕ

module _ (p : Server) where
  -- A number of a column that may be missing.
  unfoldable pub int_or : ℕ → Result → ℕ → Bytes → ℕ
  int_or d r tup field = elim (r.fnumber field) [ none ↦ d | some f ↦ pgint p r tup f ]

  unfoldable pub int64_or : ℕ → Result → ℕ → Bytes → ℕ
  int64_or d r tup field = elim (r.fnumber field) [ none ↦ d | some f ↦ pgint64 p r tup f ]

  unfoldable pub user_convert : Result → ℕ → Option User
  user_convert r tup = in_rows r tup do
    i ← r.fnumber (codes "id")
    l ← r.fnumber (codes "lev")
    n ← r.fnumber (codes "name")
    w ← r.fnumber (codes "pass")
    some (record {
      id = pgint p r tup i;
      name = pgstring r tup n;
      right = pgint p r tup l;
      pass = pgstring r tup w;
    })

  unfoldable pub tag_convert : Result → ℕ → Option Tag
  tag_convert r tup = in_rows r tup do
    i ← r.fnumber (codes "id")
    n ← r.fnumber (codes "name")
    c ← r.fnumber (codes "cmnt")
    some (record { id = pgint p r tup i; name = pgstring r tup n; desc = pgstring r tup c })

  unfoldable pub sfilter_convert : Result → ℕ → Option Sfilter
  sfilter_convert r tup = in_rows r tup do
    i ← r.fnumber (codes "id")
    n ← r.fnumber (codes "name")
    f ← r.fnumber (codes "filter")
    some (record { id = pgint p r tup i; name = pgstring r tup n; filter = pgstring r tup f })

  -- The names of the columns are the ones of title_col or album_col.
  unfoldable pub artist_convert : Bytes → Bytes → Result → ℕ → Option Artist
  artist_convert id artist r tup = in_rows r tup do
    i ← r.fnumber id
    a ← r.fnumber artist
    some (record { id = pgint p r tup i; artist = pgstring r tup a })

  unfoldable pub artist_convert_title : Result → ℕ → Option Artist
  artist_convert_title = artist_convert (codes "artist_id") (codes "artist_name")

  unfoldable pub artist_convert_album : Result → ℕ → Option Artist
  artist_convert_album = artist_convert (codes "album_artist_id") (codes "album_artist_name")

  unfoldable pub album_convert : Result → ℕ → Option Album
  album_convert r tup = in_rows r tup do
    i ← r.fnumber (codes "album_id")
    n ← r.fnumber (codes "album_name")
    y ← r.fnumber (codes "album_publish_year")
    a ← artist_convert_album r tup
    some (record {
      id = pgint p r tup i;
      album = pgstring r tup n;
      year = pgint p r tup y;
      artist = a;
    })

  -- `(gint64)t->duration * 1000000000`, the duration read as an `int`.
  unfoldable pub nanoseconds : ℕ → ℕ
  nanoseconds d =
      if ltb d (2 ^ 31) then d * 1000000000 else (2 ^ 64 - (2 ^ 32 - d) * 1000000000) % 2 ^ 64

  unfoldable pub track_convert : Result → ℕ → Option Stored
  track_convert r tup = in_rows r tup do
    i ← r.fnumber (codes "id")
    pos ← r.fnumber (codes "album_pos")
    f ← r.fnumber (codes "filename")
    t ← r.fnumber (codes "title")
    artist ← artist_convert_title r tup
    album ← album_convert r tup
    some (record {
      track = record {
        id = pgint p r tup i;
        albumnr = pgint p r tup pos;
        title = pgstring r tup t;
        duration = int_or 0 r tup (codes "dur");
        artist = artist;
        album = album;
      };
      fname = pgstring r tup f;
      lastplay = int_or 0 r tup (codes "lplay");
      seg_from = int64_or 0 r tup (codes "seg_from");
      seg_to = int64_or (nanoseconds (int_or 0 r tup (codes "dur"))) r tup (codes "seg_to");
    })
