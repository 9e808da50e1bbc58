-- ===== src/Pgdb/Shapes.antt =====
-- pgdb: the shapes that its functions have.
use dudld.Common.{
  ℕ, zero, suc, ◌+◌, ◌-◌, ◌^◌, if◌then◌else◌, Bytes, List, [], ◌∷◌, Option, none, some, codes, ◌==◌,
}
use dudld.Commands.Session.{is_negative}
use dudld.Pgdb.Server.{
  Result, Server, Db, M, pure, ◌>>=◌, ◌>>◌, Part, sql, raw, pq_clear, pgint, tuples_ok,
}
use dudld.Pgdb.Connection.{is_tuples, is_command, db_query}

-- The `int` -1.
abbrev pub minus_one : ℕ
minus_one = 2 ^ 32 - 1

unfoldable pub tuples_of : Option Result → Option Result
unfolding is_tuples
tuples_of none = none
tuples_of (some r) = elim r.status [ tuples_ok ↦ some r | _ ↦ none ]

module _ (p : Server) (opened_cb : Db p → Db p) where
  -- A query that returns rows, what is made of its result, and what is answered where it failed.
  unfoldable pub select : {A : Type 0} → A → List Part → (Result → M p A) → M p A
  select fails q body = do
    res ← db_query p opened_cb q
    elim (tuples_of res) [
      | none ↦ pq_clear res >> pure fails
      | some r ↦ body r >>= λ a. pq_clear res >> pure a
    ]

  -- A command, with the answers of one that failed and of one that did not.
  unfoldable pub command : {A : Type 0} → A → A → List Part → M p A
  command fails done q = do
    res ← db_query p opened_cb q
    pq_clear res >> pure (if is_command res then done else fails)

  -- The rows from `tup` on, `n` at most, up to one that no record can be made of: it_db_begin, and
  -- it_db_next until it answers NULL.
  unfoldable pub rows_from :
      {X : Type 0} → (Result → ℕ → M p (Option X)) → Result → ℕ → ℕ → M p (List X)
  rows_from convert r zero tup = pure []
  rows_from convert r (suc n) tup =
      let more = rows_from convert r n (tup + 1) in
      convert r tup >>= λ o. elim o [ none ↦ pure [] | some x ↦ more >>= λ xs. pure (x ∷ xs) ]

  -- db_iterate, the records of its iterator, and it_db_done.
  unfoldable pub iterate : {X : Type 0} → (Result → ℕ → M p (Option X)) → List Part → M p (List X)
  iterate convert q = select [] q (λ r. rows_from convert r r.ntuples 0)

  -- The number of the one row that a query returned.
  unfoldable pub select_id : List Part → M p ℕ
  select_id q = select minus_one q (λ r. pure (if r.ntuples == 1 then pgint p r 0 0 else minus_one))

  -- The next number of a sequence.
  unfoldable pub nextval : Bytes → M p ℕ
  nextval seq =
      select minus_one (sql (codes "SELECT nextval('") ∷ sql seq ∷ sql (codes "')") ∷ [])
        (λ r. pure (pgint p r 0 0))

  -- What is done with the number, unless it is negative.
  unfoldable pub with_id : (ℕ → M p ℕ) → ℕ → M p ℕ
  with_id insert id = if is_negative id then pure minus_one else insert id

  unfoldable pub db_table_exists : Bytes → M p ℕ
  db_table_exists table =
      select minus_one
        (sql (codes "SELECT relname FROM pg_class WHERE relkind = 'r' AND relname = '")
          ∷ raw table
          ∷ sql (codes "'")
          ∷ [])
        (λ r. pure (if r.ntuples == 0 then 0 else 1))
