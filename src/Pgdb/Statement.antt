-- ===== src/Pgdb/Statement.antt =====
-- The queries that pgdb makes, as PostgreSQL reads them.
use dudld.Common.{◌≡◌, refl, ◌∙◌, Bytes, List, [], ◌∷◌, ◌++◌, Option, none, some}
use dudld.Sql.Reading.{
  Place, outside, dash, inside, read_byte, read_text, read_text-append, read_text-db_escape,
  outside-print_int, inside-print_int,
}
use dudld.Pgdb.Server.{Part, sql, int, escaped, raw, print_part, print_query}

-- The place behind the parts of a query, which does not depend on the texts that are escaped and on the
-- numbers.
unfoldable pub part_place : Place → Part → Option Place
part_place p (sql s) = read_text p s
part_place p (raw s) = read_text p s
part_place outside (int n) = some outside
part_place inside (int n) = some inside
part_place dash (int n) = none
part_place inside (escaped s) = some inside
part_place _ (escaped s) = none

unfoldable pub query_place : Place → List Part → Option Place
unfolding part_place read_text read_byte
query_place p [] = some p
query_place p (q ∷ qs) = elim (part_place p q) [ none ↦ none | some r ↦ query_place r qs ]

read_part :
    (p : Place) (q : Part) (r : Place)
    → part_place p q ≡ some r
    → read_text p (print_part q) ≡ some r
unfolding part_place print_part
read_part p (sql s) r h = h
read_part p (raw s) r h = h
read_part outside (int n) r h = outside-print_int n ∙ h
read_part inside (int n) r h = inside-print_int n ∙ h
read_part dash (int n) r h = absurd (cc h)
read_part inside (escaped s) r h = read_text-db_escape s ∙ h
read_part outside (escaped s) r h = absurd (cc h)
read_part dash (escaped s) r h = absurd (cc h)

query_step :
    (p : Place) (q : Part) (qs : List Part) (r : Place) (o : Option Place)
    → part_place p q ≡ o
    → ((t : Place) → query_place t qs ≡ some r → read_text t (print_query qs) ≡ some r)
    → elim o [ none ↦ none | some t ↦ query_place t qs ] ≡ some r
    → read_text p (print_part q ++ print_query qs) ≡ some r
query_step p q qs r none e f h = absurd (cc h)
query_step p q qs r (some t) e f h =
    read_text-append p t (print_part q) (print_query qs) (read_part p q t e) ∙ f t h

pub read_query :
    (p : Place) (qs : List Part) (r : Place)
    → query_place p qs ≡ some r
    → read_text p (print_query qs) ≡ some r
unfolding query_place print_query
read_query p [] r h = unfold read_text in h
read_query p (q ∷ qs) r h = query_step p q qs r (part_place p q) refl (λ t. read_query t qs r) h

-- The parts of a query can be read, whatever the texts that are escaped are.
abbrev pub IsQuery : List Part → Type 0
IsQuery qs = (q : Place) × (query_place outside qs ≡ some q)

-- A text that is put in as it is.
pub raw_place :
    (p q : Place) (s : Bytes) (qs : List Part) {r : Place}
    → read_text p s ≡ some q
    → query_place q qs ≡ some r
    → query_place p (raw s ∷ qs) ≡ some r
unfolding query_place
raw_place p q s qs h g = rw (h, query_place) g
