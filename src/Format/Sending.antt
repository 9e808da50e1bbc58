-- ===== src/Format/Sending.antt =====
-- What a client gets of a track through proto_fmt.c and proto_helper.c.
use dudld.Common.{◌≤◌, ◌≡◌, ◌∙◌, ap, arith, true, Bytes, List, [], ◌∷◌, ◌++◌, some, map, length}
use dudld.Common.Memory.{IsIntact}
use dudld.Proto.Reply.{Host, Out, proto_vline, proto_rlast}
use dudld.Proto.Lines.{proto_fmtline-line}
use dudld.Format.Records.{Track, mktrack}
use dudld.Format.Dump.{dump_one, dump_track}
use dudld.Format.Fits.{IsBuffer, IsText}
use dudld.Format.Columns.{columns}
use dudld.Format.Lines.{track_line, track_columns, IsCleanTrack, track_line-IsText, columns-track}
use dudld.Format.Rows.{mktrack-Gives}

module _ (h : Host) (copies : (s : Bytes) → h.strdup s ≡ some s) (stack : IsIntact 4096 h.stack)
    (takes : (ls : List Bytes) (l : Bytes) → h.takes ls l ≡ true) (code : Bytes)
    (three : length code ≡ 3) (clean : IsText code) where
  proto_rlast-sends :
      (text : Bytes) (o : Out)
      → IsText text
      → length text ≤ 4090
      → (proto_rlast h code text o).1.sent
        ≡ o.sent ++ (true, code ++ (b' ' ∷ (text ++ b'\n' ∷ []))) ∷ []
  unfolding proto_rlast proto_vline
  proto_rlast-sends text o c le =
      let (e, m) = proto_fmtline-line h.strdup h.stack true code text stack three clean c le in
      let line = code ++ (b' ' ∷ (text ++ b'\n' ∷ [])) in
      ground (arith, e, copies line, takes (map (λ x. x.1) o.sent) line)

  dump_track-formatted :
      (t : Track) (s : Bytes) (o : Out)
      → (mktrack h.strdup o.buf t).1 ≡ some s
      → dump_track h code t o
        ≡ (proto_rlast h code s (record o { buf = (mktrack h.strdup o.buf t).0 })).1
  unfolding dump_track dump_one
  dump_track-formatted t s o e = ground (arith, e)

  -- Where memory does not run out and the connection takes every line, a track whose fields make at
  -- most 4090 bytes, none of them 0, is sent as one last line: the code of three bytes, a blank, a text
  -- whose columns are the numbers and the texts of the track, and a linebreak.
  pub dump_track-columns :
      (t : Track) (o : Out)
      → IsBuffer o.buf
      → IsCleanTrack t
      → length (track_line t) ≤ 4090
      → (text : Bytes) × ((dump_track h code t o).sent
          ≡ o.sent ++ (true, code ++ (b' ' ∷ (text ++ b'\n' ∷ []))) ∷ [])
        × (columns text ≡ track_columns t)
  dump_track-columns t o b c le =
      let (e, k) = mktrack-Gives h.strdup copies o.buf t b c (omega (arith, le)) in
      let s = track_line t in
      let p = record o { buf = (mktrack h.strdup o.buf t).0 } in
      (
        s,
        ap (λ x. x.sent) (dump_track-formatted t s o e)
            ∙ proto_rlast-sends s p (track_line-IsText t c) le,
        columns-track t,
      )
