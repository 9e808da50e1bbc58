-- ===== src/Client/Loop.antt =====
-- The loops of client.c over the list of connections: references taken and dropped, and the entries around
-- the cursor.
use dudld.Common.{
  Bool, true, false, ◌||◌, ℕ, suc, ◌+◌, ◌-◌, ◌<◌, ◌≡◌, refl, arith, none, some, List, [], ◌∷◌, ◌++◌,
  length, All, ==_refl, ==_iff, lt→ltb,
}
use dudld.Client.Connections.{
  is_del, Connections, set, at, client_addref, client_delref, it_client_cur, it_client_next,
}

-- Every client of a list is held.
abbrev pub AreHeld : (ℕ → ℕ) → List ℕ → Type 0
AreHeld refs = All (λ c. 0 < refs c)

-- What a broadcast leaves: the list, the counts and the freed clients are as they were.
pub record Unchanged (s t : Connections) : Type 0 where
  pub clients : t.clients ≡ s.clients
  pub freed : t.freed ≡ s.freed
  pub refs : (c : ℕ) → t.refs c ≡ s.refs c

-- `t` is `s` with one more reference to `c`, and stands at `cur`.
pub record Holds (c cur : ℕ) (s t : Connections) : Type 0 where
  pub clients : t.clients ≡ s.clients
  pub freed : t.freed ≡ s.freed
  pub refs : (x : ℕ) → t.refs x ≡ set c (s.refs c + 1) s.refs x
  pub place : t.cur ≡ cur

pub addref-Holds : (c : ℕ) (s t : Connections) → Unchanged s t → Holds c t.cur s (client_addref c t)
unfolding client_addref
addref-Holds c s t h = record {
  clients = h.clients;
  freed = h.freed;
  refs = λ x. grind (arith, h.refs x, h.refs c);
  place = refl;
}

pub addref-sent : (c : ℕ) (t : Connections) → (client_addref c t).sent ≡ t.sent
unfolding client_addref
addref-sent c t = refl

pub holder_count : (c cur : ℕ) (s t : Connections) → Holds c cur s t → t.refs c ≡ s.refs c + 1
holder_count c cur s t h = grind (arith, h.refs c, ==_refl c)

or_true : (b : Bool) → (b || true) ≡ true
or_true true = refl
or_true false = refl

pub delref-live :
    (gone : ℕ → Connections → Connections) (c n : ℕ) (t : Connections)
    → t.refs c ≡ n + 1
    → 0 < n
    → client_delref gone c t ≡ record t { refs = set c n t.refs }
unfolding client_delref
delref-live gone c n t e pos =
    let m : t.refs c - 1 ≡ n = omega (arith, e) in
    rw m (rw (lt→ltb 0 n pos) (rw (or_true (is_del c t.freed))))

pub delref-Unchanged :
    (gone : ℕ → Connections → Connections) (c cur : ℕ) (s t : Connections)
    → Holds c cur s t
    → 0 < s.refs c
    → Unchanged s (client_delref gone c t)
      × ((client_delref gone c t).cur ≡ cur)
      × ((client_delref gone c t).sent ≡ t.sent)
delref-Unchanged gone c cur s t h pos =
    rw (delref-live gone c (s.refs c) t (holder_count c cur s t h) pos) (
      record {
        clients = h.clients;
        freed = h.freed;
        refs = λ x. grind (arith, h.refs x, ==_iff x c);
      },
      h.place,
      refl,
    )

-- The entries around the cursor.
pub at-append : (xs ys : List ℕ) → at (xs ++ ys) (length xs) ≡ at ys 0
at-append [] ys = refl
at-append (x ∷ xs) ys = at-append xs ys

pub at-after : (xs ys : List ℕ) (c : ℕ) → at (xs ++ c ∷ ys) (suc (length xs)) ≡ at ys 0
at-after [] ys c = refl
at-after (x ∷ xs) ys c = at-after xs ys c

pub next-end :
    (xs : List ℕ) (c : ℕ) (t : Connections)
    → t.clients ≡ xs ++ c ∷ []
    → t.cur ≡ length xs
    → it_client_next t ≡ (none, record t { cur = suc t.cur })
unfolding it_client_next it_client_cur
next-end xs c t e p = ground (arith, e, p, at-append xs (c ∷ []), at-after xs [] c)

pub next-more :
    (xs ys : List ℕ) (c d : ℕ) (t : Connections)
    → t.clients ≡ xs ++ c ∷ d ∷ ys
    → t.cur ≡ length xs
    → it_client_next t ≡ (some d, client_addref d (record t { cur = suc t.cur }))
unfolding it_client_next it_client_cur
next-more xs ys c d t e p = ground (arith, e, p, at-append xs (c ∷ d ∷ ys), at-after xs (d ∷ ys) c)
