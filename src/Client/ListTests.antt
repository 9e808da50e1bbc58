-- ===== src/Client/ListTests.antt =====
-- The theorems on the list of connections at a concrete list, and a broadcast that misses a client.
use dudld.Common.{ℕ, ◌==◌, not, ◌≡◌, refl, arith, Bool, true, false, [], ◌∷◌}
use dudld.Client.Connections.{
  proto_delclient, Connections, client_addref, client_delref, it_client_cur, it_client_begin,
  it_client_next, it_client_del, close_from, client_close, client_send, bcast_from, client_bcast,
}
use dudld.Client.Loop.{AreHeld, Unchanged}
use dudld.Client.Broadcast.{client_bcast-reaches}
use dudld.Client.Closing.{Closed, client_close-Closed}

abbrev three : Connections
three = record { clients = 1 ∷ 2 ∷ 3 ∷ []; cur = 3; refs = λ c. 1; freed = []; sent = [] }

-- client_bcast, with its parts in sight.
-- Everybody hears of a logout, and nobody is in p_open.
abbrev leaving : (ℕ → Bool) → ℕ → Connections → Connections
leaving ok = proto_delclient ok (λ c. true) (λ c. false) 4

broadcast : (ℕ → Bool) → Connections → Connections
unfolding proto_delclient client_bcast bcast_from client_send client_close close_from it_client_del
    it_client_next it_client_begin it_client_cur client_delref client_addref
broadcast ok s = client_bcast (leaving ok) ok (λ c. true) s

-- A send to the first client fails: the notice of its logout reaches the others, and leaves the cursor
-- behind the list, so that the broadcast itself reaches nobody.
missed : (broadcast (λ c. not (c == 1)) three).sent ≡ 2 ∷ 3 ∷ []
unfolding broadcast
missed = refl

one_lost : (broadcast (λ c. not (c == 1)) three).clients ≡ 2 ∷ 3 ∷ []
unfolding broadcast
one_lost = refl

three_held : AreHeld three.refs three.clients
three_held = (omega arith, (omega arith, (omega arith, tt)))

client_bcast-reaches_example :
    let r = client_bcast (leaving (λ c. true)) (λ c. true) (λ c. not (c == 2)) three in
    Unchanged three r × (r.sent ≡ 1 ∷ 3 ∷ [])
client_bcast-reaches_example =
    client_bcast-reaches (leaving (λ c. true)) (λ c. true) (λ c. not (c == 2)) three (λ c. refl)
      three_held

client_close-Closed_example :
    Closed 2 (1 ∷ []) (3 ∷ []) three (client_close (leaving (λ c. true)) 2 three)
client_close-Closed_example =
    client_close-Closed (λ c. true) (λ c. true) (λ c. false) (λ c. refl) 3 2 three (1 ∷ []) (3 ∷ [])
      refl ((omega arith), tt) ((omega arith), tt) three_held
