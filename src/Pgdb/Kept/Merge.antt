-- ===== src/Pgdb/Kept/Merge.antt =====
-- artist_merge of pgdb/artist.c does not clear the results of its commands that did not fail.
use dudld.Common.{
  ℕ, ◌+◌, ◌≡◌, refl, arith, subst, Bool, true, false, Option, none, some, List, [], ◌∷◌, codes,
}
use dudld.Pgdb.Server.{Result, Server, Db, M, ◌>>=◌, ◌>>◌, Part, sql}
use dudld.Pgdb.Connection.{is_command}
use dudld.Pgdb.Albums.{merge_step, merge_failed, merge_rollback, artist_merge}
use dudld.Sql.Reading.{outside}
use dudld.Pgdb.Statement.{IsQuery, query_place}
use dudld.Pgdb.Runs.{IsClean, with_result, Runs-clear, Runs-db_query}

-- What is left after an answer: `l` results where it is 0, and some number in any case.
abbrev pub Left : {p : Server} → ℕ → Db p × ℕ → Type 0
Left l u = (u.1 ≡ 0 → IsClean l u.0) × ((j : ℕ) × IsClean j u.0)

-- An action that leaves that.
record Merges {p : Server} (k l : ℕ) (m : M p ℕ) : Type 0 where
  at : (s : Db p) → IsClean k s → Left l (m s)

module _ {p : Server} (opened_cb : Db p → Db p)
    (opened : (k : ℕ) (s : Db p) → IsClean k s → IsClean k (opened_cb s)) where
  step :
      (k j l : ℕ) (q : List Part) (failed : Option Result → M p ℕ) (next : M p ℕ)
      → k + 1 ≡ j
      → IsQuery q
      → ((res : Option Result) → Merges (with_result k res) l (failed res))
      → Merges j l next
      → Merges k l (merge_step p opened_cb q failed next)
  unfolding merge_step ◌>>=◌
  step k j l q failed next e h f n = record {
    at = λ s c. answered _ _ ((Runs-db_query opened_cb opened k q h).at s c);
  }
    where
      by_status :
          (r : Result) (b : Bool) (t : Db p)
          → IsClean (k + 1) t
          → let m : M p ℕ = elim b [ true ↦ next | false ↦ failed (some r) ] in Left l (m t)
      by_status r true t c = n.at t (subst (λ i. IsClean i t) e c)
      by_status r false t c = (f (some r)).at t c

      answered :
          (res : Option Result) (t : Db p)
          → IsClean (with_result k res) t
          → let m : M p ℕ = elim (is_command res) [ true ↦ next | false ↦ failed res ] in
            Left l (m t)
      answered none t c = unfold is_command in (f none).at t c
      answered (some r) t c = by_status r (is_command (some r)) t c

  Merges-failed :
      (k l : ℕ) (res : Option Result)
      → Merges {p = p} (with_result k res) l (merge_failed p opened_cb res)
  unfolding merge_failed ◌>>=◌ ◌>>◌
  Merges-failed k l res = record {
    at = λ s c. ((λ e. absurd (omega (arith, e))), (k, (Runs-clear k res).at s c));
  }

  Merges-rollback :
      (k l : ℕ) (res : Option Result)
      → Merges (with_result k res) l (merge_rollback p opened_cb res)
  unfolding merge_rollback query_place ◌>>=◌ ◌>>◌
  Merges-rollback k l res = record {
    at = λ s c.
        let t = (Runs-clear k res).at s c in
        let u =
          (Runs-db_query opened_cb opened k (sql (codes "ROLLBACK") ∷ []) (outside, refl)).at _ t in
        ((λ e. absurd (omega (arith, e))), (k, (Runs-clear k _).at _ u));
  }

  -- Where the callback of db_init itself sends only texts that can be read and clears its results,
  -- artist_merge sends only texts that can be read, and where it answers 0, it leaves five results more
  -- than before that were not cleared.
  pub artist_merge-Left :
      (k fromid toid : ℕ) (s : Db p)
      → IsClean k s
      → Left (k + 5) (artist_merge p opened_cb fromid toid s)
  unfolding artist_merge query_place
  artist_merge-Left k fromid toid s c =
      (step k (k + 1) (k + 5) _ _ _ (omega arith) (outside, refl) (Merges-failed k _)
          (step (k + 1) (k + 2) (k + 5) _ _ _ (omega arith) (outside, refl)
            (Merges-rollback (k + 1) _)
            (step (k + 2) (k + 3) (k + 5) _ _ _ (omega arith) (outside, refl)
              (Merges-rollback (k + 2) _)
              (step (k + 3) (k + 4) (k + 5) _ _ _ (omega arith) (outside, refl)
                (Merges-rollback (k + 3) _)
                (step (k + 4) (k + 5) (k + 5) _ _ _ (omega arith) (outside, refl)
                  (Merges-rollback (k + 4) _)
                  (record { at = λ t d. ((λ e. d), (k + 5, d)) })))))).at
        s c
