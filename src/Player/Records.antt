-- ===== src/Player/Records.antt =====
-- What the entry points of player.c answer and record.
use dudld.Common.{Bool, not, ◌&&◌, [], ◌∷◌, ◌++◌, ltb, if◌then◌else◌, ◌≡◌, ◌≢◌, arith}
use dudld.Player.State.{
  Pipeline, Player, pl_stop, pl_play, pe_ok, pe_fail, ReplayGain, Track, null, live, gst_null,
  stopped,
}
use dudld.Player.Tracks.{db_finish, finish_track}
use dudld.Player.Backend.{
  gap_finish, elapsed_del, bp_start, start_track, bp_status, bp_volume, bp_finish, bus_eos,
}
use dudld.Player.Control.{player_setrgpreamp, player_setrgtype, player_start, player_stop}

module _ {g : Pipeline} (p : Player g) {t : Track} (playing : p.curtrack ≡ live t) where
  -- The end of a current track adds one row to the history, for the user who asked for it. The row says
  -- "completed" only if that was asked for and the pipeline stopped, a track that was not completed
  -- gets the failure tag where there is one, and no track is current.
  pub bp_finish-history :
      (complete : Bool)
      → let done = complete && (g.set_state gst_null p.pipe).0 in
        let q = bp_finish complete p in
        (q.history ≡ p.history ++ record { track = t.id; uid = p.curuid; completed = done } ∷ [])
        × (q.tagged ≡ (
            if not done && ltb 0 p.failtag then p.tagged ++ (t.id, p.failtag) ∷ [] else p.tagged))
        × (q.curtrack ≡ null)
        × (q.curuid ≡ 0)
  unfolding bp_finish db_finish finish_track gap_finish elapsed_del
  bp_finish-history complete = ground arith

module _ {g : Pipeline} (p : Player g) where
  -- A player that is not stopped and holds a track stops as asked: it answers PE_OK, records the track as completed
  -- where the pipeline stopped, holds no track and no timer, and says that it stopped.
  pub player_stop_lem :
      {t : Track}
      → p.curtrack ≡ live t
      → bp_status p ≢ pl_stop
      → let q = (player_stop p).1 in
        ((player_stop p).0 ≡ pe_ok)
        × (q.history
            ≡ p.history
              ++ record {
                track = t.id;
                uid = p.curuid;
                completed = (g.set_state gst_null p.pipe).0;
              }
                ∷ [])
        × (q.curtrack ≡ null)
        × (q.gap_id ≡ 0)
        × (q.elapsed_id ≡ 0)
        × (q.events ≡ p.events ++ stopped ∷ [])
  unfolding player_stop bp_finish db_finish finish_track gap_finish elapsed_del
  player_stop_lem h s = ground arith

  -- The answer of player_start to a stopped player: PE_OK whatever bp_start answers, so also where
  -- there is nothing to play and where the pipeline fails.
  pub player_start-pe_ok : bp_status p ≡ pl_stop → (player_start p).0 ≡ pe_ok
  unfolding player_start bp_start start_track
  player_start-pe_ok s = ground arith

  -- Setting the preamplification or the kind of replay gain takes effect and answers PE_FAIL, always.
  pub setters-pe_fail :
      (r : g.Real) (k : ReplayGain)
      → ((player_setrgpreamp r p).0 ≡ pe_fail)
        × ((player_setrgpreamp r p).1.rgpreamp ≡ r)
        × ((player_setrgtype k p).0 ≡ pe_fail)
        × ((player_setrgtype k p).1.rgtype ≡ k)
  unfolding player_setrgpreamp player_setrgtype bp_volume
  setters-pe_fail r k = ground arith

  -- At the end of a stream with a gap set, the player holds no track and no timer for the position,
  -- holds the id of a timer for the gap, its status is "playing", and it makes no callback and takes
  -- nothing from the queue.
  pub bus_eos-gap :
      p.gap ≢ 0
      → let q = bus_eos p in
        (q.curtrack ≡ null)
        × (q.gap_id ≢ 0)
        × (q.elapsed_id ≡ 0)
        × (bp_status q ≡ pl_play)
        × (q.queue ≡ p.queue)
        × (q.events ≡ p.events)
  unfolding bus_eos bp_finish db_finish finish_track gap_finish elapsed_del bp_status
  bus_eos-gap h = ground arith
