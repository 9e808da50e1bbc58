-- ===== src/Pgdb/Kept.antt =====
-- The shapes of the functions of pgdb send statements and clear their results.
pub mod Users
pub mod Tags
pub mod Albums
pub mod Tracks
pub mod Queues
pub mod Random
pub mod Merge
pub mod Filters
pub mod Startup
use dudld.Common.{
  ℕ, zero, suc, ◌+◌, ◌≡◌, refl, Bool, true, false, Bytes, List, [], ◌∷◌, Option, none, some, codes,
  if◌then◌else◌,
}
use dudld.Commands.Session.{is_negative}
use dudld.Pgdb.Server.{
  Status, command_ok, tuples_ok, other_status, Result, Server, Db, M, pure, ◌>>=◌, ◌>>◌, Part, sql,
  pq_clear, Call, call,
}
use dudld.Pgdb.Shapes.{
  tuples_of, select, command, rows_from, iterate, select_id, nextval, with_id, minus_one,
}
use dudld.Pgdb.Statement.{IsQuery}
use dudld.Pgdb.Runs.{
  IsClean, Runs, Keeps, with_result, Runs-pure, Runs-bind, Runs-then, Keeps-bind, Runs-if,
  Runs-clear, Keeps-call, Runs-db_query,
}

module _ {p : Server} where
  -- The result is cleared, and something is answered.
  pub Keeps-clear :
      {A : Type 0} (k : ℕ) (res : Option Result) (a : A)
      → Runs {p = p} (with_result k res) (pq_clear res >> pure a) (λ _. k)
  Keeps-clear k res a = Runs-then k (Runs-clear k res) (Runs-pure k a)

  -- A callback is called where there is something to tell.
  pub Keeps-told :
      {X A : Type 0} (k : ℕ) (o : Option X) (c : X → Call) (a : A)
      → Keeps {p = p} k (elim o [ none ↦ pure a | some x ↦ call (c x) >> pure a ])
  Keeps-told k none c a = Runs-pure k a
  Keeps-told k (some x) c a = Runs-then k (Keeps-call k (c x)) (Runs-pure k a)

module _ {p : Server} (opened_cb : Db p → Db p)
    (opened : (k : ℕ) (s : Db p) → IsClean k s → IsClean k (opened_cb s)) where
  pub Keeps-select :
      {A : Type 0} (k : ℕ) (fails : A) (q : List Part) (body : Result → M p A)
      → IsQuery q
      → ((r : Result) → Keeps (k + 1) (body r))
      → Keeps k (select p opened_cb fails q body)
  unfolding select
  Keeps-select {A} k fails q body h b =
      Runs-bind (with_result k) (Runs-db_query opened_cb opened k q h) answered
    where
      by_status :
          (r : Result) (x : Status)
          → Runs {p = p}
              (k + 1)
              (elim (let o : Option Result = elim x [ tuples_ok ↦ some r | _ ↦ none ] in o) [
                | none ↦ pq_clear (some r) >> pure fails
                | some t ↦ body t >>= λ a. pq_clear (some r) >> pure a
              ])
              (λ _. k)
      by_status r tuples_ok = Runs-bind (λ _. k + 1) (b r) (λ a. Keeps-clear k (some r) a)
      by_status r command_ok = Keeps-clear k (some r) fails
      by_status r other_status = Keeps-clear k (some r) fails

      answered :
          (res : Option Result)
          → Runs {p = p}
              (with_result k res)
              (elim (tuples_of res) [
                | none ↦ pq_clear res >> pure fails
                | some r ↦ body r >>= λ a. pq_clear res >> pure a
              ])
              (λ _. k)
      answered none = unfold tuples_of in Keeps-clear k none fails
      answered (some r) = unfold tuples_of in by_status r r.status

  pub Keeps-command :
      {A : Type 0} (k : ℕ) (fails done : A) (q : List Part)
      → IsQuery q
      → Keeps k (command p opened_cb fails done q)
  unfolding command
  Keeps-command k fails done q h =
      Runs-bind (with_result k) (Runs-db_query opened_cb opened k q h) (λ res. Keeps-clear k res _)

  -- Records that are answered as they are.
  pub Keeps-select-pure :
      {A : Type 0} (k : ℕ) (fails : A) (q : List Part) (body : Result → A)
      → IsQuery q
      → Keeps k (select p opened_cb fails q (λ r. pure (body r)))
  Keeps-select-pure k fails q body h = Keeps-select k fails q _ h (λ r. Runs-pure _ (body r))

  Keeps-rows_from :
      {X : Type 0} (k : ℕ) (convert : Result → ℕ → M p (Option X)) (r : Result)
      → ((tup : ℕ) → Keeps k (convert r tup))
      → (n tup : ℕ) → Keeps k (rows_from p opened_cb convert r n tup)
  unfolding rows_from
  Keeps-rows_from k convert r c zero tup = Runs-pure k []
  Keeps-rows_from {X} k convert r c (suc n) tup =
      let more = Keeps-rows_from k convert r c n (tup + 1) in Keeps-bind (c tup) (next _ more)
    where
      next :
          (m : M p (List X))
          → Keeps k m
          → (o : Option X)
          → Keeps {p = p} {A = List X} k
              (elim o [ none ↦ pure [] | some x ↦ m >>= λ xs. pure (x ∷ xs) ])
      next m h none = Runs-pure k []
      next m h (some x) = Keeps-bind h (λ xs. Runs-pure k (x ∷ xs))

  pub Keeps-iterate :
      {X : Type 0} (k : ℕ) (convert : Result → ℕ → M p (Option X)) (q : List Part)
      → IsQuery q
      → ((r : Result) (tup : ℕ) → Keeps (k + 1) (convert r tup))
      → Keeps k (iterate p opened_cb convert q)
  unfolding iterate
  Keeps-iterate k convert q h c =
      Keeps-select k [] q _ h (λ r. Keeps-rows_from (k + 1) convert r (c r) _ _)

  pub Keeps-select_id : (k : ℕ) (q : List Part) → IsQuery q → Keeps k (select_id p opened_cb q)
  unfolding select_id
  Keeps-select_id k q h = Keeps-select-pure k _ q _ h

  pub Keeps-nextval :
      (k : ℕ) (seq : Bytes)
      → IsQuery (sql (codes "SELECT nextval('") ∷ sql seq ∷ sql (codes "')") ∷ [])
      → Keeps k (nextval p opened_cb seq)
  unfolding nextval
  Keeps-nextval k seq h = Keeps-select-pure k _ _ _ h

  pub Keeps-with_id :
      (k : ℕ) (insert : ℕ → M p ℕ)
      → ((id : ℕ) → Keeps k (insert id))
      → (id : ℕ) → Keeps k (with_id p opened_cb insert id)
  unfolding with_id
  Keeps-with_id k insert h id = Runs-if (is_negative id) (Runs-pure k minus_one) (h id)
