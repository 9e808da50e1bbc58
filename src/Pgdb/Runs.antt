-- ===== src/Pgdb/Runs.antt =====
-- What the functions of pgdb keep: the texts that were sent are statements, and the results are cleared.
use dudld.Common.{
  ℕ, ◌+◌, ◌-◌, ◌≡◌, refl, arith, ltb, Bool, true, false, ◌&&◌, Bool-cases, inl, inr, Bytes, List,
  [], ◌∷◌, Option, none, some, if◌then◌else◌, All, length, take, codes,
}
use dudld.Pgdb.Server.{
  Result, Server, Db, M, pure, ◌>>=◌, ◌>>◌, Part, sql, print_query, pq_exec, pq_clear, Call, call,
}
use dudld.Pgdb.Connection.{
  buflenquery, db_done, send_again, check_connection, db_vquery, query_inside, conn_failed,
  is_dbver, is_tuples, check_version, ask_version, db_conn, db_query,
}
use dudld.Sql.Reading.{outside, Reads, Reads-take, read_text, read_byte}
use dudld.Pgdb.Statement.{IsQuery, read_query, query_place, part_place}

-- A text that was sent can be read, up to a place outside of quotes or, where it was cut off, inside.
abbrev pub IsSent : Bytes → Type 0
IsSent = Reads outside

-- There are `k` results that were not cleared.
pub record IsClean {p : Server} (k : ℕ) (s : Db p) : Type 0 where
  pub results : s.results ≡ k
  pub texts : All IsSent s.sent

-- Whatever happens, `m` ends with as many results as `post` says for its answer.
pub record Runs {p : Server} {A : Type 0} (k : ℕ) (m : M p A) (post : A → ℕ) : Type 0 where
  pub at : (s : Db p) → IsClean k s → IsClean (post (m s).1) (m s).0

abbrev pub Keeps : {p : Server} {A : Type 0} → ℕ → M p A → Type 0
Keeps k m = Runs k m (λ _. k)

abbrev pub with_result : ℕ → Option Result → ℕ
with_result k none = k
with_result k (some r) = k + 1

module _ {p : Server} where
  pub Runs-pure : {A : Type 0} (k : ℕ) (a : A) → Keeps {p = p} k (pure a)
  Runs-pure k a = record { at = λ s h. h }

  pub Runs-bind :
      {A B : Type 0} {k : ℕ} {m : M p A} {f : A → M p B} (post : A → ℕ) {q : B → ℕ}
      → Runs k m post
      → ((a : A) → Runs (post a) (f a) q)
      → Runs k (m >>= f) q
  unfolding ◌>>=◌
  Runs-bind post h g = record { at = λ s c. (g _).at _ (h.at s c) }

  pub Runs-then :
      {A B : Type 0} {k : ℕ} {m : M p A} {n : M p B} (j : ℕ) {q : B → ℕ}
      → Runs k m (λ _. j)
      → Runs j n q
      → Runs k (m >> n) q
  unfolding ◌>>◌
  Runs-then j h g = Runs-bind (λ _. j) h (λ _. g)

  pub Keeps-bind :
      {A B : Type 0} {k : ℕ} {m : M p A} {f : A → M p B}
      → Keeps k m
      → ((a : A) → Keeps k (f a))
      → Keeps k (m >>= f)
  Keeps-bind {k = k} h g = Runs-bind (λ _. k) h g

  pub Runs-if :
      {A : Type 0} {k : ℕ} {q : A → ℕ} (b : Bool) {m n : M p A}
      → Runs k m q
      → Runs k n q
      → Runs k (if b then m else n) q
  Runs-if true h g = h
  Runs-if false h g = g

  pub Runs-clear :
      (k : ℕ) (res : Option Result) → Runs {p = p} (with_result k res) (pq_clear res) (λ _. k)
  unfolding pq_clear
  Runs-clear k none = record { at = λ s h. h }
  Runs-clear k (some r) = record {
    at = λ s h. record { results = omega (arith, h.results); texts = h.texts };
  }

  pub Keeps-call : (k : ℕ) (c : Call) → Keeps {p = p} k (call c)
  unfolding call
  Keeps-call k c = record { at = λ s h. record { results = h.results; texts = h.texts } }

  pub Runs-exec : (k : ℕ) (buf : Bytes) → IsSent buf → Runs {p = p} k (pq_exec buf) (with_result k)
  unfolding pq_exec
  Runs-exec k buf b = record { at = λ s h. executed s h (p.exec buf s.pg).0 (p.exec buf s.pg).1 }
    where
      executed :
          (s : Db p)
          → IsClean k s
          → (pg : p.S) (res : Option Result)
          → let t : Db p = record s { pg = pg; sent = buf ∷ s.sent } in
            let r : Db p × Option Result = elim res [
              | none ↦ (t, none)
              | some r ↦ (record t { results = s.results + 1 }, some r)
            ] in
            IsClean (with_result k r.1) r.0
      executed s h pg none = record { results = h.results; texts = (b, h.texts) }
      executed s h pg (some r) = record { results = omega (arith, h.results); texts = (b, h.texts) }

  pub Runs-send_again :
      (k : ℕ) (connect : M p Bool) (buf : Bytes)
      → Keeps k connect
      → IsSent buf
      → Runs k (send_again p connect buf) (with_result k)
  unfolding send_again
  Runs-send_again k connect buf c b = Runs-bind (λ _. k) c sent
    where
      sent :
          (failed : Bool)
          → Runs {p = p} k (elim failed [ true ↦ pure none | false ↦ pq_exec buf ]) (with_result k)
      sent true = record { at = λ s h. h }
      sent false = Runs-exec k buf b

  pub Runs-check_connection :
      (k : ℕ) (connect : M p Bool) (buf : Bytes) (res : Option Result)
      → ((j : ℕ) → Keeps j connect)
      → IsSent buf
      → Runs (with_result k res) (check_connection p connect buf res) (with_result k)
  unfolding check_connection
  Runs-check_connection k connect buf res c b = record {
    at = λ s h.
        kept s h _ ((Runs-then k (Runs-clear k res) (Runs-send_again k connect buf (c k) b)).at s h)
          (s.dbcon && p.is_ok s.pg);
  }
    where
      kept :
          (s : Db p)
          → IsClean (with_result k res) s
          → (t : Db p × Option Result) → IsClean (with_result k t.1) t.0
          → (b : Bool)
          → let u : Db p × Option Result = if b then (s, res) else t in
            IsClean (with_result k u.1) u.0
      kept s h t g true = h
      kept s h t g false = g

-- What db_vquery sends of a query.
IsQuery-IsSent : (q : List Part) → IsQuery q → IsSent (take (buflenquery - 1) (print_query q))
IsQuery-IsSent q (r, h) =
    Reads-take outside r (buflenquery - 1) (print_query q) (read_query outside q r h)

module _ {p : Server} where
  pub Runs-db_vquery :
      (k : ℕ) (connect : M p Bool) (q : List Part)
      → ((j : ℕ) → Keeps j connect)
      → IsQuery q
      → Runs k (db_vquery p connect q) (with_result k)
  unfolding db_vquery
  Runs-db_vquery k connect q c h = record {
    at = λ s g. elim (Bool-cases (ltb buflenquery (length (print_query q)))) [
      | inl e ↦ rw e g
      | inr e ↦ rw e (sent s g (IsQuery-IsSent q h) s.dbcon)
    ];
  }
    where
      buf : Bytes
      buf = take (buflenquery - 1) (print_query q)

      sent :
          (s : Db p)
          → IsClean k s
          → IsSent buf
          → (b : Bool)
          → let u : Db p × Option Result =
              if b
              then (pq_exec buf >>= check_connection p connect buf) s
              else check_connection p connect buf none s in
            IsClean (with_result k u.1) u.0
      sent s g b true =
          (Runs-bind (with_result k) (Runs-exec k buf b)
              (λ res. Runs-check_connection k connect buf res c b)).at
            s g
      sent s g b false = (Runs-check_connection k connect buf none c b).at s g

  pub Runs-query_inside :
      (k : ℕ) (q : List Part) → IsQuery q → Runs k (query_inside p q) (with_result k)
  unfolding query_inside
  Runs-query_inside k q h = Runs-db_vquery k _ q (λ j. Runs-pure j false) h

  db_done-IsClean : (k : ℕ) (s : Db p) → IsClean k s → IsClean k (db_done p s)
  unfolding db_done
  db_done-IsClean k s h = by_handle s.dbcon
    where
      by_handle :
          (b : Bool) → IsClean k (if b then record s { pg = p.finish s.pg; dbcon = false } else s)
      by_handle true = record { results = h.results; texts = h.texts }
      by_handle false = h

  Keeps-conn_failed : (k : ℕ) → Keeps k (conn_failed p)
  unfolding conn_failed
  Keeps-conn_failed k = record {
    at = λ s h. let g = db_done-IsClean k s h in record { results = g.results; texts = g.texts };
  }

version-IsQuery : IsQuery (sql (codes "SELECT ver FROM dbver WHERE item = 'schema'") ∷ [])
unfolding query_place part_place read_text read_byte
version-IsQuery = (outside, refl)

-- The callback that db_init is given keeps what is asked for here.
module _ {p : Server} (opened_cb : Db p → Db p)
    (opened : (k : ℕ) (s : Db p) → IsClean k s → IsClean k (opened_cb s)) where
  Runs-check_version :
      (k : ℕ) (res : Option Result)
      → Runs (with_result k res) (check_version p opened_cb res) (λ _. k)
  unfolding check_version
  Runs-check_version k none = record { at = λ s h. (Keeps-conn_failed k).at s h }
  Runs-check_version k (some r) = record {
    at = λ s h. checked _ ((Runs-clear k (some r)).at s h) (is_tuples (some r) && is_dbver p r);
  }
    where
      checked :
          (t : Db p)
          → IsClean k t
          → (b : Bool)
          → IsClean k
              (if b
                then (record (opened_cb t) { inprogress = false }, false)
                else conn_failed p t).0
      checked t h true = let g = opened k t h in record { results = g.results; texts = g.texts }
      checked t h false = (Keeps-conn_failed k).at t h

  Keeps-ask_version : (k : ℕ) → Keeps k (ask_version p opened_cb)
  unfolding ask_version
  Keeps-ask_version k =
      Runs-bind (with_result k) (Runs-query_inside k _ version-IsQuery) (Runs-check_version k)

  pub Keeps-db_conn : (k : ℕ) → Keeps k (db_conn p opened_cb)
  unfolding db_conn
  Keeps-db_conn k = record {
    at = λ s h.
        let g = db_done-IsClean k _ (record { results = h.results; texts = h.texts }) in
        connected s h _ (record { results = g.results; texts = g.texts }) s.inprogress _;
  }
    where
      connected :
          (s : Db p)
          → IsClean k s
          → (t : Db p) → IsClean k t
          → (a b : Bool)
          → IsClean k
              (if a then (s, false) else if b then ask_version p opened_cb t else conn_failed p t).0
      connected s h t g true b = h
      connected s h t g false true = (Keeps-ask_version k).at t g
      connected s h t g false false = (Keeps-conn_failed k).at t g

  pub Runs-db_query :
      (k : ℕ) (q : List Part) → IsQuery q → Runs k (db_query p opened_cb q) (with_result k)
  unfolding db_query
  Runs-db_query k q h = Runs-db_vquery k _ q Keeps-db_conn h
