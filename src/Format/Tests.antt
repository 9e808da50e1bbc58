-- ===== src/Format/Tests.antt =====
-- The theorems on proto_fmt.c and proto_helper.c at a concrete track.
use dudld.Common.{
  ℕ, ◌≤◌, ◌<◌, ◌≡◌, ◌≢◌, ◌↔◌, refl, arith, true, false, Bytes, [], ◌∷◌, ◌++◌, some, length, codes,
}
use dudld.Common.Memory.{zeros, zeros-IsIntact, IsIntact}
use dudld.ParseExpr.Text.{print_int, digits}
use dudld.Proto.Reply.{Host, Out, proto_fmtline}
use dudld.Proto.Lines.{proto_fmtline-line, proto_fmtline-outside}
use dudld.Format.Records.{Artist, Track, mktrack}
use dudld.Format.Dump.{dump_track}
use dudld.Format.Fits.{hide, escape, more_text, field_text, IsBuffer, IsText}
use dudld.Format.Columns.{columns}
use dudld.Format.Lines.{track_line, track_columns, IsCleanTrack}
use dudld.Format.Rows.{columns-mktrack}
use dudld.Format.Sending.{dump_track-columns}

abbrev band : Artist
band = record { id = 7; artist = codes "a\tb" }

abbrev pub song : Track
song = record {
  id = 3;
  albumnr = 1;
  title = codes "c\\d";
  duration = 200;
  artist = band;
  album = record { id = 5; album = codes "e"; year = 1990; artist = band };
}

-- A host on which nothing fails.
abbrev pub host : Host
host = record { strdup = λ s. some s; stack = zeros 4096; takes = λ ls l. true }

abbrev pub silent : Out
silent = record { buf = zeros 4096; sent = []; failed = false; overrun = false }

letter : (c : ℕ) → 0 < c → c ≢ 0
letter c h e = omega (arith, h, e)

-- The texts of the song hold no 0.
clean : IsCleanTrack song
clean = (
  (letter _ (omega arith), (letter _ (omega arith), (letter _ (omega arith), tt))),
  (letter _ (omega arith), (letter _ (omega arith), (letter _ (omega arith), tt))),
  (letter _ (omega arith), tt),
  (letter _ (omega arith), (letter _ (omega arith), (letter _ (omega arith), tt))),
)

short_line : length (track_line song) ≤ 4090
unfolding more_text field_text escape hide print_int digits
short_line = omega arith

columns-mktrack_example :
    (line : Bytes) × ((mktrack (λ s. some s) (zeros 4096) song).1 ≡ some line)
    × (columns line ≡ track_columns song)
    × IsBuffer (mktrack (λ s. some s) (zeros 4096) song).0
columns-mktrack_example =
    columns-mktrack (λ s. some s) (λ s. refl) (zeros 4096) song (zeros-IsIntact 4096) clean
      (omega (arith, short_line))

code_clean : IsText (codes "210")
code_clean = (letter _ (omega arith), (letter _ (omega arith), (letter _ (omega arith), tt)))

dump_track-columns_example :
    (text : Bytes) × ((dump_track host (codes "210") song silent).sent
      ≡ (true, codes "210" ++ (b' ' ∷ (text ++ b'\n' ∷ []))) ∷ [])
    × (columns text ≡ track_columns song)
dump_track-columns_example =
    dump_track-columns host (λ s. refl) (zeros-IsIntact 4096) (λ ls l. refl) (codes "210") refl
      code_clean song silent (zeros-IsIntact 4096) clean short_line

proto_fmtline-line_example :
    ((proto_fmtline (λ s. some s) (zeros 4096) false (codes "210") (codes "210")).1
      ≡ some (codes "210-210\n"))
    × IsIntact 4096 (proto_fmtline (λ s. some s) (zeros 4096) false (codes "210") (codes "210")).0
proto_fmtline-line_example =
    proto_fmtline-line (λ s. some s) (zeros 4096) false (codes "210") (codes "210")
      (zeros-IsIntact 4096) refl code_clean code_clean (omega arith)

proto_fmtline-outside_example :
    ((proto_fmtline (λ s. some s) (zeros 4096) true (codes "210") (codes "bye")).0.outside ≡ true)
    ↔ (length (codes "bye") ≡ 4091)
proto_fmtline-outside_example =
    proto_fmtline-outside (λ s. some s) (zeros 4096) true (codes "210") (codes "bye")
      (zeros-IsIntact 4096) refl
