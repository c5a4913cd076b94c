-- ===== src/Db/Examples.antt =====
-- A query of a database with one tick.
use graphite_tsdb.Prelude.{
  ◌+◌, ◌≡◌, refl, ap, ◌∙◌, arith, true, false, none, some, List, [], ◌∷◌, map, ◌==◌,
}
use graphite_tsdb.Prelude.Int.{pos}
use graphite_tsdb.Prelude.Bytes.{bytes_eq}
use graphite_tsdb.Prelude.Text.{Text, codes}
use graphite_tsdb.Types.{Key, Tick}
use graphite_tsdb.Compression.Dictionary.{get_id, lookup}
use graphite_tsdb.SkipList as Memtable
use graphite_tsdb.SkipList.{SkipList}
use graphite_tsdb.SkipList.Spec.{put, find, Ordered}
use graphite_tsdb.SkipList.Refinement.{IsSkipList}
use graphite_tsdb.SkipList.Insert.{insert_lem}
use graphite_tsdb.SkipList.Drain.{new-IsSkipList}
use graphite_tsdb.SsTable.Examples.{plain, one_symbol, tick}
use graphite_tsdb.Gql.{Query, SelectColumns}
use graphite_tsdb.Gql.Token.{ok, ◌>>=◌}
use graphite_tsdb.Gql.Lexer.Texts.{ascii, numbers, tokenize_simple}
use graphite_tsdb.Gql.Parser as Parser
use graphite_tsdb.Gql.Parser.Sentences.{tokens_of, parse-tokens_of}
use graphite_tsdb.Gql.Entry.{parse_text}
use graphite_tsdb.Executor.{FloatOps}
use graphite_tsdb.Executor.Filter.{filter, satisfies}
use graphite_tsdb.Compaction as Compaction
use graphite_tsdb.Replication.{primary, open_tracker}
use graphite_tsdb.Lsm.{Lsm}
use graphite_tsdb.Lsm.Scans.{scanned_tables}
use graphite_tsdb.Lsm.Scans.Results.{asked}
use graphite_tsdb.Db.{returned, query}
use graphite_tsdb.Db.Queries.{row_for, up_to, query_lem}

abbrev floats : FloatOps
floats = record {
  gt = λ a b. false;
  lt = λ a b. false;
  ge = λ a b. true;
  le = λ a b. true;
  eq = λ a b. a == b;
  max = λ a b. a;
  min = λ a b. a;
  add = λ a b. a;
  mul = λ a b. a;
  div = λ a b. a;
  of_u64 = λ a. a;
}

abbrev parser_floats : Parser.FloatOps
parser_floats = record { eq = λ a b. a == b; of_i64 = λ n. 0 }

abbrev text : Text
text = codes "SELECT * FROM A WHERE timestamp BETWEEN 0 AND 2000"

abbrev simple : Query
simple = record {
  explain = false;
  columns = SelectColumns.all;
  symbol = codes "A";
  where_clause = record { t1 = pos 0; t2 = pos 2000; price_predicate = none };
  limit = none;
  group_by = none;
}

text_parsed : parse_text ascii parser_floats numbers text ≡ ok simple
unfolding parse_text tokens_of
text_parsed =
    ap (λ tokens. tokens >>= λ ts. Parser.parse ascii parser_floats (Parser.new ts)) tokenize_simple
    ∙ parse-tokens_of ascii parser_floats simple (record { columns = tt; limit = tt })

-- A memtable with the tick.
filled_lem : (memtable : SkipList) × IsSkipList memtable (tick ∷ [])
unfolding Memtable.new put
filled_lem =
    let (sl, (e, inv)) = insert_lem Memtable.new [] new-IsSkipList tick 2 [] refl (omega arith) in
    (sl, inv)

abbrev db : Lsm
db = record {
  memtable = filled_lem.0;
  log = record { file = []; offset = 0; sequence = 0; replayed = [] };
  compaction = Compaction.new one_symbol;
  symbol_dict = one_symbol;
  flush_threshold = 10;
  bloom_checks = 0;
  bloom_hits = 0;
  total_rows = 1;
  role = primary;
  replication = open_tracker none;
  next_id = 1;
}

query_lem_example :
    (ticks : List Tick) × (Ordered ticks
      × (((key : Key) → find key ticks ≡ asked (some 0) (pos 0) (pos 2000) (find key (tick ∷ [])))
          × (query floats false plain ◌+◌ ◌+◌
                (λ bytes. bytes)
                (λ t. t)
                ascii
                parser_floats
                numbers
                db
                text
              ≡ returned db (record {
                rows =
                    up_to none (map (row_for (codes "A")) (filter (satisfies floats none) ticks));
                explain_plan = none;
              }))))
unfolding get_id lookup bytes_eq scanned_tables
query_lem_example =
    query_lem floats false plain ◌+◌ ◌+◌ (λ bytes. bytes) (λ t. t) ascii parser_floats numbers db
      (tick ∷ []) text simple 0 text_parsed refl refl filled_lem.1 refl tt
