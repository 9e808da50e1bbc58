-- ===== src/Client/Closing.antt =====
-- What client_close of client.c leaves of the list and the counts.
use dudld.Common.{
  ◌||◌, Bool, true, false, ==_iff, ℕ, zero, suc, ◌+◌, ◌-◌, ◌<◌, ◌≤◌, ltb, if◌then◌else◌, ◌≡◌, ◌≢◌,
  refl, sym, ◌∙◌, ap, arith, some, List, [], ◌∷◌, ◌++◌, length, All, subst, ==_refl, ==_ne,
  length-append, Bool-cases, inl, inr, take, drop, append_assoc, append-nil,
}
use dudld.Client.Connections.{
  proto_delclient, is_del, Connections, set, at, client_addref, client_delref, it_client_cur,
  it_client_begin, it_client_next, it_client_del, close_from, client_close,
}
use dudld.Client.Broadcast.{client_bcast-reaches}
use dudld.Client.Loop.{
  AreHeld, Unchanged, Holds, addref-Holds, holder_count, delref-live, delref-Unchanged, at-append,
  next-more,
}

-- The client `c` has left the list, which held it between `xs` and `ys`, and has lost the reference of the
-- list; it is freed if that was its last one and it was not freed before.
pub record Closed (c : ℕ) (xs ys : List ℕ) (s t : Connections) : Type 0 where
  pub clients : t.clients ≡ xs ++ ys
  pub refs : (x : ℕ) → t.refs x ≡ set c (s.refs c - 1) s.refs x
  pub freed : t.freed ≡ (if is_del c s.freed || ltb 0 (s.refs c - 1) then s.freed else c ∷ s.freed)

-- The client has left the list and not yet lost the reference.
record Cut (c : ℕ) (xs ys : List ℕ) (s t : Connections) : Type 0 where
  clients : t.clients ≡ xs ++ ys
  refs : (x : ℕ) → t.refs x ≡ s.refs x
  freed : t.freed ≡ s.freed

-- What client_close ends with.
abbrev Drops :
    (ℕ → Connections → Connections) → ℕ → List ℕ → List ℕ → Connections → Connections → Type 0
Drops gone c xs ys s r = (u : Connections) × Cut c xs ys s u × (r ≡ client_delref gone c u)

cut_list :
    (xs ys : List ℕ) (c : ℕ)
    → take (length xs) (xs ++ c ∷ ys) ++ drop (suc (length xs)) (xs ++ c ∷ ys) ≡ xs ++ ys
cut_list [] ys c = refl
cut_list (x ∷ xs) ys c = ap (λ z. x ∷ z) (cut_list xs ys c)

it_client_del-some :
    (gone : ℕ → Connections → Connections) (c : ℕ) (t : Connections)
    → at t.clients t.cur ≡ some c
    → it_client_del gone t ≡ (
        let u = client_delref gone c t in
        record u { clients = take u.cur u.clients ++ drop (suc u.cur) u.clients })
unfolding it_client_del
it_client_del-some gone c t e = ground (arith, e)

it_client_del-cut :
    (gone : ℕ → Connections → Connections) (c n : ℕ) (xs ys : List ℕ) (t : Connections)
    → t.clients ≡ xs ++ c ∷ ys
    → t.cur ≡ length xs
    → t.refs c ≡ n + 1
    → 0 < n
    → it_client_del gone t ≡ record t { refs = set c n t.refs; clients = xs ++ ys }
it_client_del-cut gone c n xs ys t e p r pos =
    let found : at t.clients t.cur ≡ some c = rw (e, p) (at-append xs (c ∷ ys)) in
    it_client_del-some gone c t found
    ∙ rw (delref-live gone c n t r pos) (rw (e, p, cut_list xs ys c))

module _ (gone : ℕ → Connections → Connections) (c : ℕ) (s : Connections) where
  close_from-here :
      (n : ℕ) (xs ys : List ℕ) (t : Connections)
      → Holds c (length xs) s t
      → s.clients ≡ xs ++ c ∷ ys
      → 0 < s.refs c
      → Drops gone c xs ys s (close_from gone (suc n) c c t)
  unfolding close_from
  close_from-here n xs ys t h e pos =
      let u : Connections = record t { refs = set c (s.refs c) t.refs; clients = xs ++ ys } in
      let d =
        it_client_del-cut gone c (s.refs c) xs ys t (h.clients ∙ e) h.place
          (holder_count c (length xs) s t h) pos in
      let v : Cut c xs ys s u = record {
        clients = refl;
        refs = λ x. grind (arith, h.refs x, ==_iff x c);
        freed = h.freed;
      } in
      (u, v, rw (==_refl c, d) refl)

  close_from-next :
      (n i d : ℕ) (t u : Connections)
      → i ≢ c
      → it_client_next (client_delref gone i t) ≡ (some d, u)
      → close_from gone (suc n) c i t ≡ close_from gone n c d u
  unfolding close_from
  close_from-next n i d t u ne e = ground (arith, e, ==_ne i c ne)

  -- The client at the cursor, where `ms` stands between it and `c`, and what is behind it.
  abbrev first : List ℕ → ℕ
  first [] = c
  first (m ∷ ms) = m

  abbrev behind : List ℕ → List ℕ → List ℕ
  behind [] ys = ys
  behind (m ∷ ms) ys = ms ++ c ∷ ys

  first-behind : (ms ys : List ℕ) → ms ++ c ∷ ys ≡ first ms ∷ behind ms ys
  first-behind [] ys = refl
  first-behind (m ∷ ms) ys = refl

  length-behind : (ms ys : List ℕ) → length ms ≤ length (behind ms ys)
  length-behind [] ys = omega arith
  length-behind (m ∷ ms) ys = omega (arith, length-append ms (c ∷ ys))

  close_from-Drops :
      (n : ℕ) (ms xs ys : List ℕ) (t : Connections)
      → Holds (first ms) (length xs) s t
      → s.clients ≡ xs ++ (ms ++ c ∷ ys)
      → All (λ m. m ≢ c) ms
      → AreHeld s.refs (ms ++ c ∷ ys)
      → length ms < n
      → Drops gone c (xs ++ ms) ys s (close_from gone n c (first ms) t)
  close_from-Drops zero ms xs ys t h e ne held le = absurd (omega (arith, le))
  close_from-Drops (suc n) [] xs ys t h e ne held le =
      rw (append-nil xs) (close_from-here n xs ys t h e held.0)
  close_from-Drops (suc n) (m ∷ ms) xs ys t h e ne held le =
      let v : Connections = client_delref gone m t in
      let (u, p, q) = delref-Unchanged gone m (length xs) s t h held.0 in
      let moved : Connections = record v { cur = suc v.cur } in
      let found =
        next-more xs (behind ms ys) m (first ms) v
          (u.clients ∙ e ∙ ap (λ z. xs ++ m ∷ z) (first-behind ms ys)) p in
      let same : Unchanged s moved = record {
        clients = u.clients;
        freed = u.freed;
        refs = u.refs;
      } in
      let w = addref-Holds (first ms) s moved same in
      let len : suc v.cur ≡ length (xs ++ m ∷ []) = omega (arith, p, length-append xs (m ∷ [])) in
      let r =
        close_from-Drops n ms (xs ++ m ∷ []) ys (client_addref (first ms) moved)
          (record { clients = w.clients; freed = w.freed; refs = w.refs; place = w.place ∙ len })
          (e ∙ sym (append_assoc xs (m ∷ []) (ms ++ c ∷ ys))) ne.1 held.1 (omega (arith, le)) in
      rw (close_from-next n m (first ms) t _ ne.0 found) (
        subst
          (λ z.
            Drops gone c z ys s (close_from gone n c (first ms) (client_addref (first ms) moved)))
          (append_assoc xs (m ∷ []) ms) r)

client_close-begin :
    (gone : ℕ → Connections → Connections) (c d : ℕ) (s : Connections) (cs : List ℕ)
    → s.clients ≡ d ∷ cs
    → client_close gone c s
      ≡ close_from gone (suc (length cs)) c d (client_addref d (record s { cur = 0 }))
unfolding client_close it_client_begin it_client_cur
client_close-begin gone c d s cs e = ground (arith, e)

client_close-Drops :
    (gone : ℕ → Connections → Connections) (c : ℕ) (s : Connections) (xs ys : List ℕ)
    → s.clients ≡ xs ++ c ∷ ys
    → All (λ m. m ≢ c) xs
    → AreHeld s.refs (xs ++ c ∷ ys)
    → Drops gone c xs ys s (client_close gone c s)
client_close-Drops gone c s xs ys e ne held =
    let t : Connections = record s { cur = 0 } in
    let d = first gone c s xs in
    let b = behind gone c s xs ys in
    let w = addref-Holds d s t (record { clients = refl; freed = refl; refs = λ x. refl }) in
    rw (client_close-begin gone c d s b (e ∙ first-behind gone c s xs ys)) (
      close_from-Drops gone c s (suc (length b)) xs [] ys (client_addref d t) w e ne held
        (omega (arith, length-behind gone c s xs ys)))

-- The clients of a list that is held are held without `c`, whatever its count is.
held_without :
    (c n : ℕ) (f g : ℕ → ℕ) (ms : List ℕ)
    → ((x : ℕ) → g x ≡ set c n f x)
    → All (λ m. m ≢ c) ms
    → AreHeld f ms
    → AreHeld g ms
held_without c n f g [] e ne h = tt
held_without c n f g (m ∷ ms) e (k, ne) (p, h) =
    (grind (arith, e m, ==_ne m c k, p), held_without c n f g ms e ne h)

All-append : (P : ℕ → Type 0) (xs ys : List ℕ) → All P xs → All P ys → All P (xs ++ ys)
All-append P [] ys h k = k
All-append P (x ∷ xs) ys (p, h) k = (p, All-append P xs ys h k)

held_around : (f : ℕ → ℕ) (c : ℕ) (xs ys : List ℕ) → AreHeld f (xs ++ c ∷ ys) → AreHeld f (xs ++ ys)
held_around f c [] ys (p, h) = h
held_around f c (x ∷ xs) ys (p, h) = (p, held_around f c xs ys h)

module _ (ok wanted is_open : ℕ → Bool) (sends : (x : ℕ) → ok x ≡ true) (fuel : ℕ) where
  abbrev disconnect : ℕ → Connections → Connections
  disconnect = proto_delclient ok wanted is_open (suc fuel)

  -- The notice of a logout leaves the connections as they are.
  disconnect-Unchanged :
      (c : ℕ) (s : Connections) → AreHeld s.refs s.clients → Unchanged s (disconnect c s)
  unfolding proto_delclient
  disconnect-Unchanged c s held =
      by_state (is_open c)
        (client_bcast-reaches (proto_delclient ok wanted is_open fuel) ok wanted s sends held).0
    where
      by_state : (b : Bool) {t : Connections} → Unchanged s t → Unchanged s (if b then s else t)
      by_state true h = record { clients = refl; freed = refl; refs = λ x. refl }
      by_state false h = h

  Cut-Closed :
      (c : ℕ) (xs ys : List ℕ) (s u : Connections)
      → Cut c xs ys s u
      → All (λ m. m ≢ c) (xs ++ ys)
      → AreHeld s.refs (xs ++ ys)
      → Closed c xs ys s (client_delref disconnect c u)
  unfolding client_delref
  Cut-Closed c xs ys s u k ne held =
      let n = u.refs c - 1 in
      let test : (is_del c s.freed || ltb 0 (s.refs c - 1)) ≡ (is_del c u.freed || ltb 0 n) =
        rw (k.freed, k.refs c) refl in
      let refs : (x : ℕ) → set c n u.refs x ≡ set c (s.refs c - 1) s.refs x =
        λ x. grind (arith, k.refs x, k.refs c) in
      let last : Connections = record u { refs = set c n u.refs; freed = c ∷ u.freed } in
      let free = held_without c (s.refs c - 1) s.refs last.refs (xs ++ ys) refs ne held in
      let told = disconnect-Unchanged c last (subst (AreHeld last.refs) (sym k.clients) free) in
      elim (Bool-cases (is_del c u.freed || ltb 0 n)) [
        | inl e ↦
            rw e (record { clients = k.clients; refs = refs; freed = k.freed ∙ rw (test, e) refl })
        | inr e ↦ rw e (record {
          clients = told.clients ∙ k.clients;
          refs = λ x. told.refs x ∙ refs x;
          freed = told.freed ∙ ap (λ z. c ∷ z) k.freed ∙ rw (test, e) refl;
        })
      ]

  -- Where every client of the list is held, the client stands in it once and every send succeeds,
  -- closing its connection takes its entry out of the list and drops the reference of the list, and
  -- frees the client if that was its last one and it was not freed before, with the notice of its
  -- logout going out over the same list; the other clients keep their counts.
  pub client_close-Closed :
      (c : ℕ) (s : Connections) (xs ys : List ℕ)
      → s.clients ≡ xs ++ c ∷ ys
      → All (λ m. m ≢ c) xs
      → All (λ m. m ≢ c) ys
      → AreHeld s.refs s.clients
      → Closed c xs ys s (client_close disconnect c s)
  client_close-Closed c s xs ys e nx ny held =
      let h = subst (AreHeld s.refs) e held in
      let (u, k, same) = client_close-Drops disconnect c s xs ys e nx h in
      subst (Closed c xs ys s) (sym same) (
        Cut-Closed c xs ys s u k (All-append (λ m. m ≢ c) xs ys nx ny)
          (held_around s.refs c xs ys h))
