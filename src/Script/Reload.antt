-- ===== src/Script/Reload.antt =====
-- The hot reload of rules, crates/aether-script/src/hot_reload.rs. The contents of the files and the
-- scanner that `logos` generates are parameters.
pub mod Laws
pub mod Runs
use aether_terminal.Prelude.{String, str_append, Option, none, some, List, [], ◌∷◌}
use aether_terminal.Script.Token.{Token, Spanned}
use aether_terminal.Script.Ast.{Rule, RuleFile}
use aether_terminal.Script.Parser.Monad.{ParseError}
use aether_terminal.Script.Parser.{Parsed, parse}
use aether_terminal.Script.Types.{TypeError, Checked, errs, check}
use aether_terminal.Script.Codegen
use aether_terminal.Script.Codegen.{Function, CompileError}
use aether_terminal.Script.Runtime.{CompiledRuleSet, compile}

-- An error holds what its text is made of.
pub data ScriptError : Type 0 where
  lex : String → ScriptError
  parse_errors : List ParseError → ScriptError
  type_errors : List TypeError → ScriptError
  compile_error : CompileError → ScriptError
  io : String → ScriptError

-- `panicked` is a panic of the parser.
pub data Loaded (A : Type 0) : Type 0 where
  ok : A → Loaded A
  err : ScriptError → Loaded A
  panicked : Loaded A

infixl 5 ◌>>=◌
abbrev pub ◌>>=◌ : {A B : Type 0} → Loaded A → (A → Loaded B) → Loaded B
ok a >>= f = f a
err e >>= f = err e
panicked >>= f = panicked

pub record HotReloader : Type 0 where
  pub rules : CompiledRuleSet
  pub watch_paths : List String

-- What the scanner returns: the tokens, or a message.
pub data Scanned : Type 0 where
  scanned : List (Spanned Token) → Scanned
  refused : String → Scanned

abbrev pub scanned_tokens : Scanned → Loaded (List (Spanned Token))
scanned_tokens (scanned tokens) = ok tokens
scanned_tokens (refused message) = err (lex message)

abbrev pub parsed_file : Parsed → Loaded RuleFile
parsed_file (Parsed.ok file) = ok file
parsed_file (Parsed.err errors) = err (parse_errors errors)
parsed_file Parsed.crashed = panicked

abbrev pub checked_rules : RuleFile → Checked → Loaded (List Rule)
checked_rules file Checked.ok = ok file.rules
checked_rules file (errs errors) = err (type_errors errors)

abbrev pub compiled_set : Codegen.Result CompiledRuleSet → Loaded CompiledRuleSet
compiled_set (Codegen.ok set) = ok set
compiled_set (Codegen.err e) = err (compile_error e)

module _ (read : String → Option String) where
  -- The loop over the paths; a line break follows each file.
  unfoldable pub read_all : List String → String → Loaded String
  read_all [] all_source = ok all_source
  read_all (path ∷ paths) all_source = elim (read path) [
    | none ↦ err (io path)
    | some content ↦ read_all paths (str_append (str_append all_source content) "\n")
  ]

module _ (tokenize : String → Scanned) where
  unfoldable pub parse_rules : String → Loaded (List Rule)
  parse_rules source = do
    tokens ← scanned_tokens (tokenize source)
    file ← parsed_file (parse tokens)
    checked_rules file (check file)

module _ (read : String → Option String) (tokenize : String → Scanned)
    (verify jit : Function → Option String) (host : Option String) where
  -- The rule set that `recompile` would store.
  abbrev pub load : List String → Loaded CompiledRuleSet
  load paths = do
    source ← read_all read paths ""
    rules ← parse_rules tokenize source
    compiled_set (compile verify jit host rules)

  abbrev pub stored : HotReloader → Loaded CompiledRuleSet → HotReloader × Loaded (Unit {0})
  stored h (ok set) = (record h { rules = set }, ok tt)
  stored h (err e) = (h, err e)
  stored h panicked = (h, panicked)

  unfoldable pub recompile : HotReloader → HotReloader × Loaded (Unit {0})
  recompile h = stored h (load h.watch_paths)
