-- ===== src/Pgdb/Kept/Users.antt =====
-- pgdb/user.c sends statements and clears its results.
use dudld.Common.{ℕ, ◌≡◌, refl, some, none, Bytes, codes, List, [], ◌∷◌}
use dudld.Pgdb.Server.{Server, Db, M, ◌>>=◌, Part, sql, int, raw}
use dudld.Pgdb.Shapes.{minus_one}
use dudld.Pgdb.Users.{
  shown, pass_gen, one_user, user_get, user_getn, user_id, users_list, user_add, user_command,
  user_setright, user_setpass, user_del,
}
use dudld.Sql.Reading.{outside, inside, read_text}
use dudld.Pgdb.Statement.{IsQuery, query_place, raw_place}
use dudld.Pgdb.Runs.{IsClean, Keeps, with_result, Runs-pure, Runs-bind, Keeps-bind, Runs-db_query}
use dudld.Pgdb.Kept.{
  Keeps-clear, Keeps-select-pure, Keeps-command, Keeps-iterate, Keeps-select_id, Keeps-nextval,
  Keeps-with_id,
}

-- A text that does not leave the quotes it stands in.
abbrev pub IsQuotable : Bytes → Type 0
IsQuotable s = read_text inside s ≡ some inside

module _ {p : Server} (opened_cb : Db p → Db p)
    (opened : (k : ℕ) (s : Db p) → IsClean k s → IsClean k (opened_cb s)) (k : ℕ) where
  pub Keeps-user_get : (uid : ℕ) → Keeps k (user_get p opened_cb uid)
  unfolding user_get one_user query_place
  Keeps-user_get uid = Keeps-select-pure opened_cb opened k none _ _ (outside, refl)

  pub Keeps-user_getn : (name : Bytes) → Keeps k (user_getn p opened_cb name)
  unfolding user_getn one_user query_place
  Keeps-user_getn name = Keeps-select-pure opened_cb opened k none _ _ (outside, refl)

  pub Keeps-user_id : (name : Bytes) → Keeps k (user_id p opened_cb name)
  unfolding user_id query_place
  Keeps-user_id name = Keeps-select_id opened_cb opened k _ (outside, refl)

  pub Keeps-users_list : Keeps k (users_list p opened_cb)
  unfolding users_list query_place
  Keeps-users_list = Keeps-iterate opened_cb opened k _ _ (outside, refl) (λ r tup. Runs-pure _ _)

  Keeps-user_command : (q : List Part) → IsQuery q → Keeps k (user_command p opened_cb q)
  unfolding user_command
  Keeps-user_command q h =
      Runs-bind (with_result k) (Runs-db_query opened_cb opened k q h) (λ res. Keeps-clear k res _)

  pub Keeps-user_setright : (id right : ℕ) → Keeps k (user_setright p opened_cb id right)
  unfolding user_setright query_place
  Keeps-user_setright id right = Keeps-user_command _ (outside, refl)

  pub Keeps-user_del : (uid : ℕ) → Keeps k (user_del p opened_cb uid)
  unfolding user_del query_place
  Keeps-user_del uid = Keeps-user_command _ (outside, refl)

  -- What crypt makes of a password.
  generated :
      {B : Type 0} (salt : ℕ → ℕ) (pass : Bytes) (f : Bytes → M p B)
      → ((s : Bytes) → IsQuotable (shown (p.crypt pass s)))
      → ((w : Bytes) → IsQuotable w → Keeps k (f w))
      → Keeps k (pass_gen {p = p} salt pass >>= f)
  unfolding pass_gen ◌>>=◌
  generated salt pass f c h = record {
    at = λ s g. (h _ (c _)).at _ (record { results = g.results; texts = g.texts });
  }

  pub Keeps-user_setpass :
      (salt : ℕ → ℕ) (id : ℕ) (pass : Bytes)
      → ((s : Bytes) → IsQuotable (shown (p.crypt pass s)))
      → Keeps k (user_setpass p opened_cb salt id pass)
  unfolding user_setpass query_place
  Keeps-user_setpass salt id pass c = generated salt pass _ c (λ w h.
      Keeps-user_command _
        (outside, raw_place inside inside w (sql (codes "' WHERE id = ") ∷ int id ∷ []) h refl))

  pub Keeps-user_add :
      (salt : ℕ → ℕ) (name : Bytes) (right : ℕ) (pass : Bytes)
      → IsQuotable name
      → ((s : Bytes) → IsQuotable (shown (p.crypt pass s)))
      → Keeps k (user_add p opened_cb salt name right pass)
  unfolding user_add query_place
  Keeps-user_add salt name right pass n c =
      Keeps-bind (Keeps-nextval opened_cb opened k _ (outside, refl)) (
        Keeps-with_id opened_cb opened k _ (λ id. generated salt pass _ c (λ w h.
          Keeps-command opened_cb opened k minus_one id _ (
            outside,
            raw_place inside inside name
                (sql (codes "', ") ∷ int right ∷ sql (codes ", '") ∷ raw w ∷ sql (codes "' )") ∷ [])
                n (raw_place inside inside w (sql (codes "' )") ∷ []) h refl),
          ))))
