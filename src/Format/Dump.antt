-- ===== src/Format/Dump.antt =====
-- proto_fmt.c: one record, or all those of an iterator, sent to a client. An iterator stands for the records
-- that it hands out; that of a query that failed is NULL and hands out none.
use dudld.Common.{if◌then◌else◌, Bool, true, Bytes, List, [], ◌∷◌, Option, none, some, codes}
use dudld.Common.Memory.{Memory}
use dudld.Proto.Reply.{Host, Out, proto_rline, proto_rlast}
use dudld.Format.Records.{
  User, Peer, Tag, Artist, Album, Track, History, Queue, Sfilter, mkuser, mkclient, mktag, mkartist,
  mkalbum, mktrack, mkhistory, mkqueue, mksfilter,
}

module _ {X : Type 0} (h : Host)
    (mk : (Bytes → Option Bytes) → Memory → X → Memory × Option Bytes) where
  -- The body that the functions for one record share.
  unfoldable pub dump_one : Bytes → X → Out → Out
  dump_one code t o =
      let (m, fmt) = mk h.strdup o.buf t in
      let p = record o { buf = m } in
      elim fmt [
        | none ↦ (proto_rlast h (codes "501") (codes "failed to format") p).1
        | some s ↦ (proto_rlast h code s p).1
      ]

  -- The loop that the functions for an iterator share: a record that cannot be formatted is passed over.
  -- Its answer is `r >= 0`.
  unfoldable pub dump_loop : Bytes → List X → Out → Bool × Out
  dump_loop code [] o = (true, o)
  dump_loop code (t ∷ ts) o =
      let (m, fmt) = mk h.strdup o.buf t in
      let p = record o { buf = m } in
      let (r, q) : Bool × Out = elim fmt [ none ↦ (true, p) | some s ↦ proto_rline h code s p ] in
      let rest = dump_loop code ts q in if r then rest else (r, q)

  unfoldable pub dump_all : Bytes → List X → Out → Out
  dump_all code it o =
      let (r, q) = dump_loop code it o in if r then (proto_rlast h code [] q).1 else q

module _ (h : Host) where
  unfoldable pub dump_client : Bytes → Peer → Out → Out
  dump_client = dump_one h mkclient

  unfoldable pub dump_user : Bytes → Option User → Out → Out
  dump_user = dump_one h mkuser

  unfoldable pub dump_track : Bytes → Track → Out → Out
  dump_track = dump_one h mktrack

  unfoldable pub dump_tag : Bytes → Tag → Out → Out
  dump_tag = dump_one h mktag

  unfoldable pub dump_album : Bytes → Album → Out → Out
  dump_album = dump_one h mkalbum

  unfoldable pub dump_artist : Bytes → Artist → Out → Out
  dump_artist = dump_one h mkartist

  unfoldable pub dump_queue : Bytes → Queue → Out → Out
  dump_queue = dump_one h mkqueue

  unfoldable pub dump_sfilter : Bytes → Sfilter → Out → Out
  dump_sfilter = dump_one h mksfilter

  unfoldable pub dump_users : Bytes → List User → Out → Out
  dump_users = dump_all h (λ strdup m u. mkuser strdup m (some u))

  unfoldable pub dump_clients : Bytes → List Peer → Out → Out
  dump_clients = dump_all h mkclient

  unfoldable pub dump_tracks : Bytes → List Track → Out → Out
  dump_tracks = dump_all h mktrack

  unfoldable pub dump_history : Bytes → List History → Out → Out
  dump_history = dump_all h mkhistory

  unfoldable pub dump_tags : Bytes → List Tag → Out → Out
  dump_tags = dump_all h mktag

  unfoldable pub dump_albums : Bytes → List Album → Out → Out
  dump_albums = dump_all h mkalbum

  unfoldable pub dump_artists : Bytes → List Artist → Out → Out
  dump_artists = dump_all h mkartist

  unfoldable pub dump_queues : Bytes → List Queue → Out → Out
  dump_queues = dump_all h mkqueue

  unfoldable pub dump_sfilters : Bytes → List Sfilter → Out → Out
  dump_sfilters = dump_all h mksfilter
