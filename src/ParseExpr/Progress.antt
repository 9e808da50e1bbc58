-- ===== src/ParseExpr/Progress.antt =====
-- How far the functions of commondb/parseexpr.c get in the text: none goes back behind the place where it
-- was called.
use dudld.Common.{
  ℕ, zero, suc, ◌<◌, ◌≤◌, ◌≢◌, Option, some, Bytes, [], ◌∷◌, ◌≡◌, refl, arith, length, get_or,
}
use dudld.ParseBuf.{pi_str_next, pi_str_eof}
use dudld.ParseExpr.Syntax.{Value, ValOp, ValTest, Message, none_op}
use dudld.ParseExpr.Lexer.{
  ParseStat, parse_error, next, done, undo, left, nonspace_from, parse_nonspace, alloc_from,
  parse_alloc, filter_name, parse_name, num_from, parse_num, escaped, filter_string, parse_string,
}
use dudld.ParseExpr.Parser.{
  parse_value, vallist_from, parse_vallist, compare_op, in_op, parse_valop, operand, check_test,
  parse_valtest, parse_operator,
}

-- The state reads `s`, and stands and is marked at `n` or behind it.
pub record Past (s : Bytes) (n : ℕ) (i : ParseStat) : Type 0 where
  pub same : i.input.str ≡ s
  pub place : n ≤ i.input.cur
  pub mark : n ≤ i.input.done

get_or-lt : (n : ℕ) (s : Bytes) → get_or s n 0 ≢ 0 → n < length s
get_or-lt n [] h = absurd (h refl)
get_or-lt zero (c ∷ s) h = omega arith
get_or-lt (suc n) (c ∷ s) h = omega (arith, get_or-lt n s h)

module _ {s : Bytes} {n : ℕ} where
  next-Past : (i : ParseStat) → Past s n i → Past s n (next i).1
  unfolding next pi_str_next
  next-Past i h = ground arith

  pub parse_error-Past : (m : Message) (i : ParseStat) → Past s n i → Past s n (parse_error m i)
  unfolding parse_error
  parse_error-Past m i h = record { same = h.same; place = h.place; mark = h.mark }

  nonspace_from-Past : (k : ℕ) (i : ParseStat) → Past s n (done i) → Past s n (nonspace_from k i).1
  unfolding nonspace_from
  nonspace_from-Past zero i h = next-Past (done i) h
  nonspace_from-Past (suc k) i h =
      ground (arith, next-Past (done i) h, nonspace_from-Past k (next (done i)).1)

  pub parse_nonspace-Past : (i : ParseStat) → Past s n i → Past s n (parse_nonspace i).1
  unfolding parse_nonspace
  parse_nonspace-Past i h =
      nonspace_from-Past (left i) i (record { same = h.same; place = h.place; mark = h.place })

  filter_name-Past : (i : ParseStat) → Past s n i → Past s n (filter_name i).1
  unfolding filter_name
  filter_name-Past i h = ground (arith, next-Past i h)

  escaped-Past : (i : ParseStat) → Past s n i → Past s n (escaped i).1
  unfolding escaped parse_error
  escaped-Past i h = ground (arith, next-Past i h)

  filter_string-Past : (i : ParseStat) → Past s n i → Past s n (filter_string i).1
  unfolding filter_string
  filter_string-Past i h = ground (arith, next-Past i h, escaped-Past (done (next i).1))

  module _ (filter : ParseStat → Option ℕ × ParseStat)
      (keeps : (i : ParseStat) → Past s n i → Past s n (filter i).1) where
    alloc_from-Past :
        (k : ℕ) (w : Bytes) (i : ParseStat) → Past s n i → Past s n (alloc_from filter k w i).1
    unfolding alloc_from
    alloc_from-Past zero w i h = keeps i h
    alloc_from-Past (suc k) w i h = grind (arith, keeps i h, alloc_from-Past k)

    parse_alloc-Past : (i : ParseStat) → Past s n i → Past s n (parse_alloc filter i).1
    unfolding parse_alloc
    parse_alloc-Past i h = alloc_from-Past (left i) [] i h

  pub undo-Past : (i : ParseStat) → Past s n i → Past s n (undo i)
  undo-Past i h = record { same = h.same; place = h.mark; mark = h.mark }

  pub done-Past : (i : ParseStat) → Past s n i → Past s n (done i)
  done-Past i h = record { same = h.same; place = h.place; mark = h.place }

  parse_name-Past : (i : ParseStat) → Past s n i → Past s n (parse_name i).1
  unfolding parse_name
  parse_name-Past i h =
      parse_alloc-Past filter_name filter_name-Past _ (undo-Past _ (parse_nonspace-Past i h))

  num_from-Past : (k m : ℕ) (i : ParseStat) → Past s n i → Past s n (num_from k m i).1
  unfolding num_from
  num_from-Past zero m i h = undo-Past _ (parse_nonspace-Past i h)
  num_from-Past (suc k) m i h =
      grind (arith, parse_nonspace-Past i h, undo-Past, done-Past, num_from-Past k)

  parse_num-Past : (i : ParseStat) → Past s n i → Past s n (parse_num i).1
  unfolding parse_num
  parse_num-Past i h = num_from-Past (left i) 0 i h

  parse_string-Past : (i : ParseStat) → Past s n i → Past s n (parse_string i).1
  unfolding parse_string
  parse_string-Past i h = grind (
    arith,
    parse_nonspace-Past i h,
    undo-Past,
    done-Past,
    parse_alloc-Past filter_string filter_string-Past,
    next-Past,
    parse_error-Past,
  )

  pub parse_value-Past : (i : ParseStat) → Past s n i → Past s n (parse_value i).1
  unfolding parse_value
  parse_value-Past i h = grind (
    arith,
    parse_nonspace-Past i h,
    undo-Past,
    parse_string-Past,
    parse_num-Past,
    parse_error-Past,
  )

  vallist_from-Past : (k : ℕ) (i : ParseStat) → Past s n i → Past s n (vallist_from k i).1
  unfolding vallist_from
  vallist_from-Past zero i h = parse_error-Past _ _ (parse_value-Past i h)
  vallist_from-Past (suc k) i h = grind (
    arith,
    parse_value-Past i h,
    parse_nonspace-Past,
    undo-Past,
    parse_error-Past,
    vallist_from-Past k,
  )

  parse_vallist-Past : (i : ParseStat) → Past s n i → Past s n (parse_vallist i).1
  unfolding parse_vallist
  parse_vallist-Past i h = grind (arith, vallist_from-Past (left i) i h)

  compare_op-Past : (a b : ValOp) (i : ParseStat) → Past s n i → Past s n (compare_op a b i).1
  unfolding compare_op
  compare_op-Past a b i h = grind (arith, next-Past i h, undo-Past, done-Past)

  in_op-Past : (i : ParseStat) → Past s n i → Past s n (in_op i).1
  unfolding in_op
  in_op-Past i h = grind (arith, next-Past i h, done-Past, parse_error-Past)

  parse_valop-Past : (i : ParseStat) → Past s n i → Past s n (parse_valop i).1
  unfolding parse_valop
  parse_valop-Past i h = grind (
    arith,
    parse_nonspace-Past i h,
    undo-Past,
    done-Past,
    compare_op-Past,
    in_op-Past,
    parse_error-Past,
  )

  check_test-Past : (t : ValTest) (i : ParseStat) → Past s n i → Past s n (check_test t i).1
  unfolding check_test
  check_test-Past t i h = grind (arith, parse_error-Past)

  operand-Past :
      (o : ValOp) (i : ParseStat) (r : Option Value × ParseStat)
      → operand o i ≡ some r
      → Past s n i
      → Past s n r.1
  unfolding operand
  operand-Past o i r e h = ground (arith, parse_value-Past i h, parse_vallist-Past i h)

  pub parse_valtest-Past : (i : ParseStat) → Past s n i → Past s n (parse_valtest i).1
  unfolding parse_valtest
  parse_valtest-Past i h = grind (
    arith,
    parse_name-Past i h,
    parse_valop-Past,
    operand-Past,
    check_test-Past,
    parse_error-Past,
  )

  pub parse_operator-Past : (i : ParseStat) → Past s n i → Past s n (parse_operator i).1
  unfolding parse_operator
  parse_operator-Past i h = grind (arith, parse_nonspace-Past i h, undo-Past, done-Past)

-- Where a byte was read, it stood in the text, and marking it as read goes one place ahead.
pub record PastByte (s : Bytes) (n : ℕ) (i : ParseStat) : Type 0 where
  pub ahead : Past s (suc n) (done i)
  pub inside : n < length s

module _ {s : Bytes} {n : ℕ} where
  next-some : (i : ParseStat) (b : ℕ) → Past s n i → (next i).0 ≡ some b → PastByte s n (next i).1
  unfolding next pi_str_next pi_str_eof
  next-some i b h e = ground (arith, get_or-lt i.input.cur i.input.str)

  nonspace_from-some :
      (k : ℕ) (i : ParseStat) (b : ℕ)
      → Past s n (done i)
      → (nonspace_from k i).0 ≡ some b
      → PastByte s n (nonspace_from k i).1
  unfolding nonspace_from
  nonspace_from-some zero i b h e = next-some (done i) b h e
  nonspace_from-some (suc k) i b h e = grind (
    arith,
    next-some (done i),
    next-Past (done i) h,
    done-Past,
    nonspace_from-some k (next (done i)).1,
  )

  pub parse_nonspace-some :
      (i : ParseStat) (b : ℕ)
      → Past s n i
      → (parse_nonspace i).0 ≡ some b
      → PastByte s n (parse_nonspace i).1
  unfolding parse_nonspace
  parse_nonspace-some i b h e = nonspace_from-some (left i) i b (done-Past i h) e

  -- An operator that was found has been read.
  pub parse_operator-some :
      (i : ParseStat)
      → Past s n i
      → (parse_operator i).0 ≢ none_op
      → Past s (suc n) (parse_operator i).1 × (n < length s)
  unfolding parse_operator
  parse_operator-some i h e = grind (arith, parse_nonspace-some i)
