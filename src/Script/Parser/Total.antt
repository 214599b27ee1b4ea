-- ===== src/Script/Parser/Total.antt =====
-- The parser of crates/aether-script/src/parser.rs as a whole.
use aether_terminal.Prelude.{List, [], ◌∷◌, ◌≢◌}
use aether_terminal.Script.Token.{Token, Spanned}
use aether_terminal.Script.Ast.{Rule}
use aether_terminal.Script.Parser.Monad.{ParseError, Outcome, failed, done, panicked, out_of_fuel}
use aether_terminal.Script.Parser.{parse, Parsed, finish}
use aether_terminal.Script.Parser.Rounds.{Returns, parse_rule_file-Returns}

abbrev pub IsAnswer : Parsed → Type 0
IsAnswer (Parsed.ok file) = Unit
IsAnswer (Parsed.err errors) = errors ≢ []
IsAnswer Parsed.crashed = ⊥

finish-IsAnswer :
    (o : Outcome (List Rule)) (errors : List ParseError) → Returns o → IsAnswer (finish o errors)
finish-IsAnswer (done rules) [] h = tt
finish-IsAnswer (done rules) (e ∷ es) h = λ p. cc
finish-IsAnswer failed errors h = absurd (cc (h.1))
finish-IsAnswer panicked errors h = absurd (cc (h.1))
finish-IsAnswer out_of_fuel errors h = absurd (cc (h.1))

-- On every sequence of tokens the parser ends and answers with a rule file or with at least one
-- error: no index is out of bounds, no `unreachable!()` is reached, and every loop ends.
pub parse-IsAnswer : (tokens : List (Spanned Token)) → IsAnswer (parse tokens)
unfolding parse
parse-IsAnswer tokens = finish-IsAnswer _ _ (parse_rule_file-Returns tokens)
