-- ===== src/Client/Connections.antt =====
-- client.c: the list of connections, their reference counts, and what is sent to them. A client is named by
-- its id. What client_delref calls at the end of a connection is a parameter of these functions, and
-- proto_delclient of proto.c below, which broadcasts over the same list.
use dudld.Common.{
  false, ◌||◌, ℕ, zero, suc, ◌+◌, ◌-◌, ◌==◌, ltb, if◌then◌else◌, Bool, Option, none, some, List, [],
  ◌∷◌, ◌++◌, length, take, drop,
}

-- The list `clients` with its cursor, the `_refs` of each client, those that were freed, and those that the
-- message was sent to.
pub record Connections : Type 0 where
  pub clients : List ℕ
  pub cur : ℕ
  pub refs : ℕ → ℕ
  pub freed : List ℕ
  pub sent : List ℕ

abbrev pub set : ℕ → ℕ → (ℕ → ℕ) → ℕ → ℕ
set c n f x = if x == c then n else f x

-- The entry at a place of the list.
abbrev pub at : List ℕ → ℕ → Option ℕ
at [] n = none
at (c ∷ cs) zero = some c
at (c ∷ cs) (suc n) = at cs n

unfoldable pub client_addref : ℕ → Connections → Connections
client_addref c s = record s { refs = set c (s.refs c + 1) s.refs }

-- `del`: a client of the list of those that were freed.
abbrev pub is_del : ℕ → List ℕ → Bool
is_del c [] = false
is_del c (x ∷ xs) = x == c || is_del c xs

unfoldable pub it_client_cur : Connections → Option ℕ × Connections
it_client_cur s = elim (at s.clients s.cur) [
  | none ↦ (none, s)
  | some c ↦ (some c, client_addref c s)
]

unfoldable pub it_client_begin : Connections → Option ℕ × Connections
it_client_begin s = it_client_cur (record s { cur = 0 })

unfoldable pub it_client_next : Connections → Option ℕ × Connections
it_client_next s = elim (at s.clients s.cur) [
  | none ↦ (none, s)
  | some c ↦ it_client_cur (record s { cur = suc s.cur })
]

unfoldable pub it_client_add : ℕ → Connections → Connections
it_client_add c s = client_addref c (record s { clients = s.clients ++ c ∷ [] })

-- `gone` is client_func_disconnect.
module _ (gone : ℕ → Connections → Connections) where
  unfoldable pub client_delref : ℕ → Connections → Connections
  client_delref c s =
      let n = s.refs c - 1 in
      let t = record s { refs = set c n s.refs } in
      let last = gone c (record t { freed = c ∷ s.freed }) in
      if is_del c s.freed || ltb 0 n then t else last

  -- The entry at the cursor leaves the list.
  unfoldable pub it_client_del : Connections → Connections
  it_client_del s = elim (at s.clients s.cur) [
    | none ↦ s
    | some c ↦
        let t = client_delref c s in
        record t { clients = take t.cur t.clients ++ drop (suc t.cur) t.clients }
  ]

  -- The loop of client_close from the client `i` at the cursor on, with at most `n` more.
  unfoldable pub close_from : ℕ → ℕ → ℕ → Connections → Connections
  close_from zero c i s = s
  close_from (suc n) c i s =
      let (o, t) = it_client_next (client_delref i s) in
      let rest : Connections = elim o [ none ↦ t | some j ↦ close_from n c j t ] in
      if i == c then client_delref i (it_client_del s) else rest

  unfoldable pub client_close : ℕ → Connections → Connections
  client_close c s =
      let (o, t) = it_client_begin s in
      elim o [ none ↦ t | some i ↦ close_from (length s.clients) c i t ]

  -- client_send of a text that is not empty; `ok` says whether send takes all of it.
  unfoldable pub client_send : (ℕ → Bool) → ℕ → Connections → Connections
  client_send ok c s = if ok c then record s { sent = s.sent ++ c ∷ [] } else client_close c s

  -- The loop of client_bcast, from the client `c` at the cursor on.
  unfoldable pub bcast_from : (ℕ → Bool) → (ℕ → Bool) → ℕ → ℕ → Connections → Connections
  bcast_from ok wanted zero c s = s
  bcast_from ok wanted (suc n) c s =
      let t = client_delref c (if wanted c then client_send ok c s else s) in
      let (o, u) = it_client_next t in elim o [ none ↦ u | some d ↦ bcast_from ok wanted n d u ]

  unfoldable pub client_bcast : (ℕ → Bool) → (ℕ → Bool) → Connections → Connections
  client_bcast ok wanted s =
      let (o, t) = it_client_begin s in
      elim o [ none ↦ t | some c ↦ bcast_from ok wanted (length s.clients) c t ]

-- proto_delclient of proto.c, with the clients that have logged in no further than p_open and those whose
-- rights reach what is needed to hear of a logout. Each call of it that a broadcast makes is for another
-- client, so it nests no deeper than there are clients; `fuel` bounds that.
module _ (ok wanted is_open : ℕ → Bool) where
  unfoldable pub proto_delclient : ℕ → ℕ → Connections → Connections
  proto_delclient zero c s = s
  proto_delclient (suc fuel) c s =
      let told = client_bcast (proto_delclient fuel) ok wanted s in if is_open c then s else told
