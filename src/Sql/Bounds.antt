-- ===== src/Sql/Bounds.antt =====
-- What sql_expr of pgdb/filter.c prints, and where it stores it.
use dudld.Common.{
  ℕ, zero, suc, ◌<◌, ◌≡◌, refl, sym, ◌∙◌, subst, arith, true, Bytes, List, [], ◌∷◌, ◌++◌, Option,
  none, some, take, append_assoc, codes,
}
use dudld.Common.Memory.{
  Memory, store, Begins, IsIntact, IsIntact-Begins, Begins-IsIntact, store-next,
}
use dudld.Common.Writer.{emit, skip, Printed, Prints, Prints-emit, Prints-skip}
use dudld.ParseExpr.Syntax.{
  Value, Values, list, nil, cons, ValTest, Expr, op_self, op_not, op_and, op_or,
}
use dudld.Sql.Asking.{Asking, just, ◌▹◌, Does, Does-just, Does-then, printed}
use dudld.Sql.Filter.{
  Func, f_tag, f_taglist, sql_len, sql_tags, sql_tags2id, sql_idlist, sql_taglist, print_func,
  run_func, find_format, sql_valtestfmt, SqlValtestfmt, sql_valtest, sql_expr, print_row,
}
use dudld.Sql.Reading.{outside, read_byte, read_text, read_both, IsStatement}
use dudld.Sql.Texts.{sql_idlist-Reads}
use dudld.Sql.Pieces.{
  ids_text, sql_ids-Prints, ids_text-IsStatement, print_func-Prints, func_text-IsStatement,
  find_format-HasRow, HasRow,
}

-- A text is printed, and it is one that PostgreSQL reads as a part of a statement, where the static buffer
-- has its size.
pub record Writes {S : Type 0} (sbuf : Memory) (a : Asking S) : Type 0 where
  pub does : Does a
  pub reads : IsIntact sql_len sbuf → (s : S) → IsStatement (does.text s)

Writes-emit :
    {S : Type 0} (sbuf : Memory) (s : Bytes) → IsStatement s → Writes {S = S} sbuf (just (emit s))
unfolding Does-just
Writes-emit sbuf s h = record { does = Does-just (emit s) s (Prints-emit true s); reads = λ i t. h }

Writes-skip : {S : Type 0} (sbuf : Memory) → Writes {S = S} sbuf (just skip)
unfolding Does-just read_text
Writes-skip sbuf = record { does = Does-just skip [] Prints-skip; reads = λ i t. refl }

Writes-then :
    {S : Type 0} (sbuf : Memory) (a b : Asking S)
    → Writes sbuf a
    → Writes sbuf b
    → Writes sbuf (a ▹ b)
unfolding Does-then
Writes-then sbuf a b h k = record {
  does = Does-then a b h.does k.does;
  reads = λ i s.
      read_both outside outside (h.does.text s) (k.does.text (h.does.end s)) (h.reads i s)
        (k.reads i (h.does.end s));
}

module _ {S : Type 0} (query : Bytes → S → S × Option (List ℕ)) (sbuf : Memory) where
  -- What is printed of the numbers of tags.
  tags_text : Option (List ℕ) → Bytes
  tags_text none = []
  tags_text (some ids) = ids_text (sql_idlist sbuf ids)

  sql_tags-Prints : (o : Option (List ℕ)) → Prints true (sql_tags sbuf o) (tags_text o)
  unfolding tags_text sql_tags
  sql_tags-Prints none = Prints-skip
  sql_tags-Prints (some ids) = sql_ids-Prints (sql_idlist sbuf ids)

  tags_text-IsStatement : IsIntact sql_len sbuf → (o : Option (List ℕ)) → IsStatement (tags_text o)
  unfolding tags_text read_text
  tags_text-IsStatement i none = refl
  tags_text-IsStatement i (some ids) =
      ids_text-IsStatement (sql_idlist sbuf ids) (λ x e. sql_idlist-Reads sbuf ids x i e)

  Writes-sql_taglist : (vs : Values) → Writes sbuf (sql_taglist query sbuf vs)
  unfolding sql_taglist
  Writes-sql_taglist vs = record {
    does = record {
      text = λ s. tags_text (sql_tags2id query sbuf vs s).1;
      end = λ s. (sql_tags2id query sbuf vs s).0;
      prints = λ s. sql_tags-Prints (sql_tags2id query sbuf vs s).1;
      ends = λ m at len s le. refl;
    };
    reads = λ i s. tags_text-IsStatement i (sql_tags2id query sbuf vs s).1;
  }

  -- A function that asks for nothing.
  Writes-print_func :
      (f : Func) (t : ValTest) (v : Value) (row : Option Bytes)
      → IsStatement (print_row row)
      → Writes {S = S} sbuf (just (print_func f t v row))
  unfolding Does-just
  Writes-print_func f t v row h = record {
    does = Does-just _ _ (print_func-Prints f t v row);
    reads = λ i s. func_text-IsStatement f t v row h;
  }

  Writes-run_func :
      (f : Func) (t : ValTest) (v : Value) (row : Option Bytes)
      → IsStatement (print_row row)
      → Writes sbuf (run_func query sbuf f t v row)
  unfolding run_func
  Writes-run_func f_tag t v row h = Writes-sql_taglist (cons v nil)
  Writes-run_func f_taglist t (list vs) row h = Writes-sql_taglist vs
  Writes-run_func f t v row h = Writes-print_func f t v row h

  Writes-sql_valtest : (t : ValTest) → Writes sbuf (sql_valtest query sbuf t)
  unfolding sql_valtest
  Writes-sql_valtest t = with_format (find_format t sql_valtestfmt) (find_format-HasRow t)
    where
      with_format :
          (o : Option SqlValtestfmt)
          → ((f : SqlValtestfmt) → o ≡ some f → HasRow f)
          → Writes {S = S} sbuf
              (elim o [ none ↦ just skip | some f ↦ run_func query sbuf f.func t t.val f.row ])
      with_format none h = Writes-skip sbuf
      with_format (some f) h = Writes-run_func f.func t t.val f.row (h f refl)

  -- A filter between two texts, and two of them.
  around :
      (a b : Bytes) (p : Asking S)
      → IsStatement a
      → IsStatement b
      → Writes sbuf p
      → Writes sbuf (just (emit a) ▹ (p ▹ just (emit b)))
  around a b p ha hb h =
      Writes-then sbuf _ _ (Writes-emit sbuf a ha) (Writes-then sbuf _ _ h (Writes-emit sbuf b hb))

  pub Writes-sql_expr : (e : Expr) → Writes sbuf (sql_expr query sbuf e)
  unfolding sql_expr read_text read_byte
  Writes-sql_expr (op_self t) = Writes-sql_valtest t
  Writes-sql_expr (op_not e) = around (codes "NOT ( ") (codes " )") _ refl refl (Writes-sql_expr e)
  Writes-sql_expr (op_and a b) = Writes-then sbuf _ _ (Writes-emit sbuf (codes "( ") refl) (
      Writes-then sbuf _ _ (Writes-sql_expr a)
        (around (codes " )AND( ") (codes " )") _ refl refl (Writes-sql_expr b)))
  Writes-sql_expr (op_or a b) = Writes-then sbuf _ _ (Writes-emit sbuf (codes "( ") refl) (
      Writes-then sbuf _ _ (Writes-sql_expr a)
        (around (codes " )OR( ") (codes " )") _ refl refl (Writes-sql_expr b)))

  take-nil : (k : ℕ) → take {A = ℕ} k [] ≡ []
  take-nil zero = refl
  take-nil (suc k) = refl

  -- What stands in the first bytes of an array, of which the first was set to 0.
  pub sql_expr-Begins :
      (e : Expr) (n k : ℕ) (m : Memory) (s : S)
      → IsIntact n m
      → k < n
      → Printed
          ((Writes-sql_expr e).does.text s)
          []
          n
          (suc k)
          (printed (sql_expr query sbuf e) s (store 0 0 m) 0 (suc k))
  sql_expr-Begins e n k m s h lt =
      (Writes-sql_expr e).does.prints s [] n (store 0 0 m) (suc k)
        (subst (λ x. Begins (x ++ 0 ∷ []) n (store 0 0 m)) (sym (take-nil k))
          (store-next 0 (IsIntact-Begins h) (omega arith)))
        (omega arith)

  -- Into the first bytes of an array, at least one, of which the first was set to 0, sql_expr stores
  -- what fits of a text in front of a 0, whatever the filter is and the database answers, and nothing
  -- outside of the array.
  sql_expr-IsIntact :
      (e : Expr) (n k : ℕ) (m : Memory) (s : S)
      → IsIntact n m
      → k < n
      → IsIntact n (sql_expr query sbuf e (store 0 0 m) 0 (suc k) s).1.0
        × ((t : Bytes) × (rest : Bytes) × ((sql_expr query sbuf e
                (store 0 0 m)
                0
                (suc k)
                s).1.0.bytes
              ≡ take k t ++ 0 ∷ rest))
  sql_expr-IsIntact e n k m s h lt =
      let p = sql_expr-Begins e n k m s h lt in
      let t = (Writes-sql_expr e).does.text s in
      let r = p.begins.rest in
      (Begins-IsIntact p.begins, (t, r, p.begins.bytes ∙ append_assoc (take k t) (0 ∷ []) r))
