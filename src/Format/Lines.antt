-- ===== src/Format/Lines.antt =====
-- The lines of tracks and what belongs to them that proto_fmt.c makes where its buffer is large enough.
use dudld.Common.{
  All-append, All-map, ℕ, ◌<◌, ◌≡◌, ◌≢◌, refl, ◌∙◌, arith, Bytes, List, [], ◌∷◌, ◌++◌, All, length,
  length-append,
}
use dudld.ParseExpr.Text.{print_int}
use dudld.Format.Table.{blen, Field, str, text, char, int, invalid}
use dudld.Format.Records.{Artist, Album, Track}
use dudld.Format.Digits.{print_int-IsPlain}
use dudld.Format.Fits.{escape, hide, field_text, more_text, IsText}
use dudld.Format.Columns.{columns, field_columns, more_columns, columns-row}

-- The fields behind the first of each record, and its line where the buffer is large enough.
abbrev pub artist_line : Artist → Bytes
artist_line a = print_int a.id ++ more_text (str a.artist ∷ [])

abbrev pub album_line : Album → Bytes
album_line a =
    print_int a.id ++ more_text (str a.album ∷ int a.year ∷ text (artist_line a.artist) ∷ [])

abbrev pub track_line : Track → Bytes
track_line t =
    print_int t.id
    ++ more_text (
        int t.albumnr
        ∷ str t.title
        ∷ int t.duration
        ∷ text (artist_line t.artist)
        ∷ text (album_line t.album)
        ∷ [])

-- No text of a field holds a 0.
abbrev pub IsClean : Field → Type 0
IsClean (str s) = IsText s
IsClean (text s) = IsText s
IsClean (char c) = c ≢ 0
IsClean (int n) = Unit
IsClean invalid = Unit

hide-IsText : (c : ℕ) → c ≢ 0 → IsText (hide c)
unfolding hide
hide-IsText c h = ground arith

escape-IsText : (s : Bytes) → IsText s → IsText (escape s)
unfolding escape
escape-IsText [] h = tt
escape-IsText (c ∷ s) (h, hs) =
    All-append _ (hide c) (escape s) (hide-IsText c h) (escape-IsText s hs)

print_int-IsText : (n : ℕ) → IsText (print_int n)
print_int-IsText n = All-map (print_int n) (λ c k e. omega (arith, e, k.0)) (print_int-IsPlain n)

field_text-IsText : (f : Field) → IsClean f → IsText (field_text f)
unfolding field_text
field_text-IsText (str s) h = escape-IsText s h
field_text-IsText (text s) h = h
field_text-IsText (char c) h = hide-IsText c h
field_text-IsText (int n) h = print_int-IsText n
field_text-IsText invalid h = (λ e. omega (arith, e), tt)

more_text-IsText : (fs : List Field) → All IsClean fs → IsText (more_text fs)
unfolding more_text
more_text-IsText [] h = tt
more_text-IsText (f ∷ fs) (h, hs) = (
  λ e. omega (arith, e),
  All-append _ (field_text f) (more_text fs) (field_text-IsText f h) (more_text-IsText fs hs),
)

pub row-IsText : (n : ℕ) (fs : List Field) → All IsClean fs → IsText (print_int n ++ more_text fs)
row-IsText n fs h =
    All-append _ (print_int n) (more_text fs) (print_int-IsText n) (more_text-IsText fs h)

pub artist_line-IsText : (a : Artist) → IsText a.artist → IsText (artist_line a)
artist_line-IsText a h = row-IsText a.id (str a.artist ∷ []) (h, tt)

pub album_line-IsText :
    (a : Album) → IsText a.album → IsText a.artist.artist → IsText (album_line a)
album_line-IsText a h k =
    row-IsText a.id (str a.album ∷ int a.year ∷ text (artist_line a.artist) ∷ [])
      (h, (tt, (artist_line-IsText a.artist k, tt)))

-- The texts of a track: its title, the names of its artist and its album, and that of the artist of its
-- album.
abbrev pub IsCleanTrack : Track → Type 0
IsCleanTrack t =
    IsText t.title × IsText t.artist.artist × IsText t.album.album × IsText t.album.artist.artist

pub track_line-IsText : (t : Track) → IsCleanTrack t → IsText (track_line t)
track_line-IsText t (c, a, l, k) =
    row-IsText t.id
      (int t.albumnr
        ∷ str t.title
        ∷ int t.duration
        ∷ text (artist_line t.artist)
        ∷ text (album_line t.album)
        ∷ [])
      (tt, (c, (tt, (artist_line-IsText t.artist a, (album_line-IsText t.album l k, tt)))))

abbrev pub track_columns : Track → List Bytes
track_columns t =
    print_int t.id
    ∷ print_int t.albumnr
    ∷ t.title
    ∷ print_int t.duration
    ∷ print_int t.artist.id
    ∷ t.artist.artist
    ∷ print_int t.album.id
    ∷ t.album.album
    ∷ print_int t.album.year
    ∷ print_int t.album.artist.id
    ∷ t.album.artist.artist
    ∷ []

columns-artist : (a : Artist) → columns (artist_line a) ≡ print_int a.id ∷ a.artist ∷ []
unfolding field_columns more_columns
columns-artist a = columns-row a.id (str a.artist ∷ [])

columns-album :
    (a : Album)
    → columns (album_line a)
      ≡ print_int a.id ∷ a.album ∷ print_int a.year ∷ print_int a.artist.id ∷ a.artist.artist ∷ []
unfolding field_columns more_columns
columns-album a =
    columns-row a.id (str a.album ∷ int a.year ∷ text (artist_line a.artist) ∷ [])
    ∙ rw (columns-artist a.artist) refl

pub columns-track : (t : Track) → columns (track_line t) ≡ track_columns t
unfolding field_columns more_columns
columns-track t =
    columns-row t.id (
      int t.albumnr
      ∷ str t.title
      ∷ int t.duration
      ∷ text (artist_line t.artist)
      ∷ text (album_line t.album)
      ∷ [])
    ∙ rw (columns-artist t.artist, columns-album t.album) refl

length-more_text :
    (fs gs : List Field) (s : Bytes) → length s < length (more_text (fs ++ text s ∷ gs))
unfolding more_text field_text
length-more_text [] gs s = omega (arith, length-append s (more_text gs))
length-more_text (f ∷ fs) gs s =
    omega (
      arith,
      length-append (field_text f) (more_text (fs ++ text s ∷ gs)),
      length-more_text fs gs s,
    )

-- A text inside a row that fits.
pub row-short :
    (n : ℕ) (fs : List Field) (s : Bytes) (gs : List Field)
    → length (print_int n ++ more_text (fs ++ text s ∷ gs)) < blen
    → length s < blen
row-short n fs s gs lt =
    omega
      (arith, length-append (print_int n) (more_text (fs ++ text s ∷ gs)), length-more_text fs gs s)
