-- ===== src/Format/Rows.antt =====
-- What a client reads in the line of a record that proto_fmt.c makes.
use dudld.Common.{ℕ, ◌<◌, ◌≡◌, ◌∙◌, arith, Bytes, List, [], ◌∷◌, ◌++◌, Option, some, All, length}
use dudld.Common.Memory.{Memory}
use dudld.ParseExpr.Text.{print_int}
use dudld.Format.Table.{blen, Field, str, text, int, mktab}
use dudld.Format.Records.{Artist, Album, Track, mkartist, mkalbum, mktrack}
use dudld.Format.Fits.{more_text, IsBuffer, IsText, Gives, mktab-fits}
use dudld.Format.Columns.{columns}
use dudld.Format.Lines.{
  artist_line, album_line, track_line, IsClean, IsCleanTrack, row-IsText, artist_line-IsText,
  album_line-IsText, track_columns, columns-track, row-short,
}

module _ (strdup : Bytes → Option Bytes) (copies : (s : Bytes) → strdup s ≡ some s) where
  row-Gives :
      (buf : Memory) (n : ℕ) (fs : List Field)
      → IsBuffer buf
      → All IsClean fs
      → length (print_int n ++ more_text fs) < blen
      → Gives (some (print_int n ++ more_text fs)) (mktab strdup buf (int n ∷ fs))
  row-Gives buf n fs h c lt =
      let (e, b) = mktab-fits strdup buf n fs h lt (row-IsText n fs c) in (e ∙ copies _, b)

  mkartist-Gives :
      (buf : Memory) (a : Artist)
      → IsBuffer buf
      → IsText a.artist
      → length (artist_line a) < blen
      → Gives (some (artist_line a)) (mkartist strdup buf a)
  unfolding mkartist
  mkartist-Gives buf a h c lt = row-Gives buf a.id (str a.artist ∷ []) h (c, tt) lt

  mkalbum-row :
      (buf : Memory) (a : Album) (s : Bytes)
      → (mkartist strdup buf a.artist).1 ≡ some s
      → mkalbum strdup buf a
        ≡ mktab strdup
            (mkartist strdup buf a.artist).0
            (int a.id ∷ str a.album ∷ int a.year ∷ text s ∷ [])
  unfolding mkalbum
  mkalbum-row buf a s e = ground (arith, e)

  mkalbum-Gives :
      (buf : Memory) (a : Album)
      → IsBuffer buf
      → IsText a.album
      → IsText a.artist.artist
      → length (album_line a) < blen
      → Gives (some (album_line a)) (mkalbum strdup buf a)
  mkalbum-Gives buf a h c d lt =
      let sub = artist_line a.artist in
      let (e, b) =
        mkartist-Gives buf a.artist h d
          (row-short a.id (str a.album ∷ int a.year ∷ []) sub [] lt) in
      rw (mkalbum-row buf a sub e) (
        row-Gives _ a.id (str a.album ∷ int a.year ∷ text sub ∷ []) b
          (c, (tt, (artist_line-IsText a.artist d, tt))) lt)

  mktrack-row :
      (buf : Memory) (t : Track) (s r : Bytes)
      → (mkartist strdup buf t.artist).1 ≡ some s
      → (mkalbum strdup (mkartist strdup buf t.artist).0 t.album).1 ≡ some r
      → mktrack strdup buf t
        ≡ mktab strdup
            (mkalbum strdup (mkartist strdup buf t.artist).0 t.album).0
            (int t.id ∷ int t.albumnr ∷ str t.title ∷ int t.duration ∷ text s ∷ text r ∷ [])
  unfolding mktrack
  mktrack-row buf t s r e f = ground (arith, e, f)

  pub mktrack-Gives :
      (buf : Memory) (t : Track)
      → IsBuffer buf
      → IsCleanTrack t
      → length (track_line t) < blen
      → Gives (some (track_line t)) (mktrack strdup buf t)
  mktrack-Gives buf t h (c, a, l, k) lt =
      let first = int t.albumnr ∷ str t.title ∷ int t.duration ∷ [] in
      let sub1 = artist_line t.artist in
      let sub2 = album_line t.album in
      let (e, b) =
        mkartist-Gives buf t.artist h a (row-short t.id first sub1 (text sub2 ∷ []) lt) in
      let (f, d) =
        mkalbum-Gives _ t.album b l k (row-short t.id (first ++ text sub1 ∷ []) sub2 [] lt) in
      rw (mktrack-row buf t sub1 sub2 e f) (
        row-Gives _ t.id (first ++ text sub1 ∷ text sub2 ∷ []) d
          (tt, (c, (tt, (artist_line-IsText t.artist a, (album_line-IsText t.album l k, tt))))) lt)

  -- Where memory does not run out and the line of a track is shorter than the buffer, a client that
  -- splits the line of mktrack at the tabs and undoes the escapes reads the numbers and the texts of
  -- the track, its artist, its album and the artist of its album, whatever bytes but 0 the texts hold;
  -- nothing is stored outside of the buffer.
  pub columns-mktrack :
      (buf : Memory) (t : Track)
      → IsBuffer buf
      → IsCleanTrack t
      → length (track_line t) < blen
      → (line : Bytes) × ((mktrack strdup buf t).1 ≡ some line)
        × (columns line ≡ track_columns t)
        × IsBuffer (mktrack strdup buf t).0
  columns-mktrack buf t h c lt =
      let (e, b) = mktrack-Gives buf t h c lt in (track_line t, e, columns-track t, b)
