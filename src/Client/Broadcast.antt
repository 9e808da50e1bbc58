-- ===== src/Client/Broadcast.antt =====
-- Whom client_bcast of client.c reaches.
use dudld.Common.{
  ℕ, zero, suc, ◌<◌, if◌then◌else◌, ◌≡◌, refl, sym, ◌∙◌, ap, arith, Bool, true, none, some, List,
  [], ◌∷◌, ◌++◌, length, length-append, Bool-cases, inl, inr, append_assoc, append-nil,
}
use dudld.Client.Connections.{
  Connections, client_addref, client_delref, it_client_cur, it_client_begin, it_client_next,
  client_send, bcast_from, client_bcast,
}
use dudld.Client.Loop.{
  AreHeld, Unchanged, Holds, addref-Holds, addref-sent, delref-Unchanged, next-end, next-more,
}

-- The clients of a list that are wanted.
abbrev pub filter : (ℕ → Bool) → List ℕ → List ℕ
filter wanted [] = []
filter wanted (c ∷ cs) = let rest = filter wanted cs in if wanted c then c ∷ rest else rest

module _ (gone : ℕ → Connections → Connections) (ok wanted : ℕ → Bool)
    (sends : (c : ℕ) → ok c ≡ true) (s : Connections) where
  -- What one turn of the loop makes of the state that it finds, before the next client is fetched.
  turn : ℕ → Connections → Connections
  unfolding client_send
  turn c t = client_delref gone c (if wanted c then client_send gone ok c t else t)

  turn-Unchanged :
      (c cur : ℕ) (t : Connections)
      → Holds c cur s t
      → 0 < s.refs c
      → Unchanged s (turn c t)
        × ((turn c t).cur ≡ cur)
        × ((turn c t).sent ≡ t.sent ++ filter wanted (c ∷ []))
  unfolding turn client_send
  turn-Unchanged c cur t h pos = elim (Bool-cases (wanted c)) [
    | inl e ↦
        rw (e, sends c)
          (delref-Unchanged gone c cur s (record t { sent = t.sent ++ c ∷ [] })
            (record { clients = h.clients; freed = h.freed; refs = h.refs; place = h.place }) pos)
    | inr e ↦ rw (e, append-nil t.sent) (delref-Unchanged gone c cur s t h pos)
  ]

  bcast_from-end :
      (n c : ℕ) (t u : Connections)
      → it_client_next (turn c t) ≡ (none, u)
      → bcast_from gone ok wanted (suc n) c t ≡ u
  unfolding bcast_from turn
  bcast_from-end n c t u e = ground (arith, e)

  bcast_from-more :
      (n c d : ℕ) (t u : Connections)
      → it_client_next (turn c t) ≡ (some d, u)
      → bcast_from gone ok wanted (suc n) c t ≡ bcast_from gone ok wanted n d u
  unfolding bcast_from turn
  bcast_from-more n c d t u e = ground (arith, e)

  -- What the rest of the loop leaves of a state, and whom it reaches.
  abbrev Reaches : List ℕ → Connections → Connections → Type 0
  Reaches cs t r = Unchanged s r × (r.sent ≡ t.sent ++ filter wanted cs)

  filter-cons :
      (c : ℕ) (cs : List ℕ) → filter wanted (c ∷ []) ++ filter wanted cs ≡ filter wanted (c ∷ cs)
  filter-cons c cs = elim (Bool-cases (wanted c)) [ inl e ↦ rw e | inr e ↦ rw e ]

  bcast_from-Reaches :
      (n c : ℕ) (xs ys : List ℕ) (t : Connections)
      → Holds c (length xs) s t
      → s.clients ≡ xs ++ c ∷ ys
      → AreHeld s.refs (c ∷ ys)
      → length ys < n
      → Reaches (c ∷ ys) t (bcast_from gone ok wanted n c t)
  bcast_from-Reaches zero c xs ys t h e held le = absurd (omega (arith, le))
  bcast_from-Reaches (suc n) c xs [] t h e held le =
      let (u, p, q) = turn-Unchanged c (length xs) t h held.0 in
      let last = bcast_from-end n c t _ (next-end xs c (turn c t) (u.clients ∙ e) p) in
      rw last (record { clients = u.clients; freed = u.freed; refs = u.refs }, q)
  bcast_from-Reaches (suc n) c xs (d ∷ ys) t h e held le =
      let (u, p, q) = turn-Unchanged c (length xs) t h held.0 in
      let moved : Connections = record (turn c t) { cur = suc (turn c t).cur } in
      let one = bcast_from-more n c d t _ (next-more xs ys c d (turn c t) (u.clients ∙ e) p) in
      let same : Unchanged s moved = record {
        clients = u.clients;
        freed = u.freed;
        refs = u.refs;
      } in
      let w = addref-Holds d s moved same in
      let len : suc (turn c t).cur ≡ length (xs ++ c ∷ []) =
        omega (arith, p, length-append xs (c ∷ [])) in
      let (v, r) =
        bcast_from-Reaches n d (xs ++ c ∷ []) ys (client_addref d moved)
          (record { clients = w.clients; freed = w.freed; refs = w.refs; place = w.place ∙ len })
          (e ∙ sym (append_assoc xs (c ∷ []) (d ∷ ys))) held.1 (omega (arith, le)) in
      rw one (
        v,
        r
            ∙ ap (λ z. z ++ filter wanted (d ∷ ys)) (addref-sent d moved ∙ q)
            ∙ append_assoc t.sent (filter wanted (c ∷ [])) (filter wanted (d ∷ ys))
            ∙ ap (λ z. t.sent ++ z) (filter-cons c (d ∷ ys)),
      )

client_bcast-none :
    (gone : ℕ → Connections → Connections) (ok wanted : ℕ → Bool) (s : Connections)
    → s.clients ≡ []
    → client_bcast gone ok wanted s ≡ record s { cur = 0 }
unfolding client_bcast it_client_begin it_client_cur
client_bcast-none gone ok wanted s e = ground (arith, e)

client_bcast-some :
    (gone : ℕ → Connections → Connections) (ok wanted : ℕ → Bool) (s : Connections) (c : ℕ)
    (cs : List ℕ)
    → s.clients ≡ c ∷ cs
    → client_bcast gone ok wanted s
      ≡ bcast_from gone ok wanted (suc (length cs)) c (client_addref c (record s { cur = 0 }))
unfolding client_bcast it_client_begin it_client_cur
client_bcast-some gone ok wanted s c cs e = ground (arith, e)

client_bcast-list :
    (gone : ℕ → Connections → Connections) (ok wanted : ℕ → Bool) (s : Connections) (l : List ℕ)
    → ((c : ℕ) → ok c ≡ true)
    → s.clients ≡ l
    → AreHeld s.refs l
    → let r = client_bcast gone ok wanted s in Unchanged s r × (r.sent ≡ s.sent ++ filter wanted l)
client_bcast-list gone ok wanted s [] sends e held =
    rw (client_bcast-none gone ok wanted s e)
      (record { clients = refl; freed = refl; refs = λ x. refl }, sym (append-nil s.sent))
client_bcast-list gone ok wanted s (c ∷ cs) sends e held =
    let t : Connections = record s { cur = 0 } in
    let w = addref-Holds c s t (record { clients = refl; freed = refl; refs = λ x. refl }) in
    let (u, r) =
      bcast_from-Reaches gone ok wanted sends s (suc (length cs)) c [] cs (client_addref c t) w e
        held (omega arith) in
    rw (client_bcast-some gone ok wanted s c cs e)
      (u, r ∙ ap (λ z. z ++ filter wanted (c ∷ cs)) (addref-sent c t))

-- Where every send succeeds and every client of the list is held, a broadcast reaches each client of
-- the list that is wanted, once and in order, and leaves the list, the reference counts and the freed
-- clients as they were.
pub client_bcast-reaches :
    (gone : ℕ → Connections → Connections) (ok wanted : ℕ → Bool) (s : Connections)
    → ((c : ℕ) → ok c ≡ true)
    → AreHeld s.refs s.clients
    → let r = client_bcast gone ok wanted s in
      Unchanged s r × (r.sent ≡ s.sent ++ filter wanted s.clients)
client_bcast-reaches gone ok wanted s sends held =
    client_bcast-list gone ok wanted s s.clients sends refl held
