-- ===== src/Query/Syntax.antt =====
-- The classes `PrimitiveQuery` and `Query` of libursa/Query.h.
use ursadb.Prelude.{
  ℕ, suc, Bool, true, false, List, ltb, if◌then◌else◌, Result, ok, err, no_subqueries, not_a_ngram,
}
use ursadb.Core.{IndexType, gram3, raw}

-- A token is the list of the byte values that it accepts.
abbrev pub QToken : Type 0
QToken = List ℕ

abbrev pub QString : Type 0
QString = List QToken

pub record PrimitiveQuery : Type 0 where
  pub itype : IndexType
  pub trigram : ℕ

unfoldable pub less : PrimitiveQuery → PrimitiveQuery → Bool
less p q =
    if ltb (raw p.itype) (raw q.itype)
    then true
    else if ltb (raw q.itype) (raw p.itype)
    then false
    else ltb p.trigram q.trigram

-- `as_ngram()` of a query that is not planned yet: the member's initial value.
abbrev pub initial_ngram : PrimitiveQuery
initial_ngram = record { itype = gram3; trigram = 0 }

-- One constructor for each of the class's, that of `Query(type, queries)` twice. `literal` and
-- `ngram` have the type PRIMITIVE, before and after `plan`.
mutual
  pub data Query : Type 0 where
    literal : QString → Query
    ngram : PrimitiveQuery → Query
    and_of : Queries → Query
    or_of : Queries → Query
    min_of : ℕ → Queries → Query

  pub data Queries : Type 0 where
    nil : Queries
    cons : Query → Queries → Queries

abbrev pub length : Queries → ℕ
length nil = 0
length (cons q qs) = suc (length qs)

abbrev pub append : Queries → Queries → Queries
append nil rs = rs
append (cons q qs) rs = cons q (append qs rs)

pub data QueryType : Type 0 where
  primitive_type and_type or_type min_of_type : QueryType

unfoldable pub get_type : Query → QueryType
get_type (literal v) = primitive_type
get_type (ngram g) = primitive_type
get_type (and_of qs) = and_type
get_type (or_of qs) = or_type
get_type (min_of n qs) = min_of_type

unfoldable pub as_queries : Query → Result Queries
as_queries (and_of qs) = ok qs
as_queries (or_of qs) = ok qs
as_queries (min_of n qs) = ok qs
as_queries _ = err no_subqueries

unfoldable pub as_ngram : Query → Result PrimitiveQuery
as_ngram (ngram g) = ok g
as_ngram (literal v) = ok initial_ngram
as_ngram _ = err not_a_ngram
