-- ===== src/Gql/Entry.antt =====
-- graphite/src/gql/parser.rs: `parse`, from a text to a query.
use graphite_tsdb.Prelude.Text.{Text, Unicode}
use graphite_tsdb.Gql.{Query}
use graphite_tsdb.Gql.Token.{Parsed, ◌>>=◌}
use graphite_tsdb.Gql.Lexer
use graphite_tsdb.Gql.Lexer.{NumberOps, tokenize}
use graphite_tsdb.Gql.Parser
use graphite_tsdb.Gql.Parser.{FloatOps, parse}

unfoldable pub parse_text : Unicode → FloatOps → NumberOps → Text → Parsed Query
parse_text u f n input = do tokens ← tokenize u n (Lexer.new input); parse u f (Parser.new tokens)
