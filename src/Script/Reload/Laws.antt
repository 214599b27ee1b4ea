-- ===== src/Script/Reload/Laws.antt =====
-- What a reload of the rules (crates/aether-script/src/hot_reload.rs) stores.
use aether_terminal.Prelude.{
  String, ◌≡◌, refl, ap, sym, ◌∙◌, Option, none, some, List, [], ◌∷◌, str_append, ◌⊎◌, inl, inr,
}
use aether_terminal.Script.Token.{Token, Spanned}
use aether_terminal.Script.Ast.{Rule, RuleFile}
use aether_terminal.Script.Parser.{Parsed, parse}
use aether_terminal.Script.Parser.Total.{IsAnswer, parse-IsAnswer}
use aether_terminal.Script.Types.{Checked, errs, check, with_builtins}
use aether_terminal.Script.Types.Laws.{AllTyped, check-ok_iff}
use aether_terminal.Script.Codegen
use aether_terminal.Script.Codegen.{Function}
use aether_terminal.Script.Runtime.{CompiledRuleSet, compile}
use aether_terminal.Script.Reload.{
  ScriptError, Loaded, ok, err, panicked, ◌>>=◌, HotReloader, Scanned, scanned, refused,
  scanned_tokens, parsed_file, checked_rules, compiled_set, read_all, parse_rules, load, stored,
  recompile,
}

module _ (read : String → Option String) (tokenize : String → Scanned)
    (verify jit : Function → Option String) (host : Option String) where
  -- The stages that lead from the files to a rule set.
  pub record Reloaded (paths : List String) (set : CompiledRuleSet) : Type 0 where
    pub source : String
    pub tokens : List (Spanned Token)
    pub file : RuleFile
    pub is_read : read_all read paths "" ≡ ok source
    pub is_scanned : tokenize source ≡ scanned tokens
    pub is_parsed : parse tokens ≡ Parsed.ok file
    pub is_typed : AllTyped with_builtins file.rules
    pub is_compiled : compile verify jit host file.rules ≡ Codegen.ok set

  then-ok :
      {A B : Type 0} (r : Loaded A) (f : A → Loaded B) {b : B}
      → (r >>= f) ≡ ok b
      → (a : A) × (r ≡ ok a) × (f a ≡ ok b)
  then-ok (ok a) f h = (a, refl, h)
  then-ok (err e) f h = cc
  then-ok panicked f h = cc

  scanned-ok :
      (t : Scanned) (tokens : List (Spanned Token))
      → scanned_tokens t ≡ ok tokens
      → t ≡ scanned tokens
  scanned-ok (scanned ts) tokens h = cc
  scanned-ok (refused message) tokens h = cc

  parsed-ok : (p : Parsed) (file : RuleFile) → parsed_file p ≡ ok file → p ≡ Parsed.ok file
  parsed-ok (Parsed.ok f) file h = cc
  parsed-ok (Parsed.err errors) file h = cc
  parsed-ok Parsed.crashed file h = cc

  checked-ok :
      (c : Checked) (file : RuleFile) (rules : List Rule)
      → checked_rules file c ≡ ok rules
      → (c ≡ Checked.ok) × (rules ≡ file.rules)
  checked-ok Checked.ok file rules h = (refl, cc)
  checked-ok (errs errors) file rules h = cc

  compiled-ok :
      (c : Codegen.Result CompiledRuleSet) (set : CompiledRuleSet)
      → compiled_set c ≡ ok set
      → c ≡ Codegen.ok set
  compiled-ok (Codegen.ok s) set h = cc
  compiled-ok (Codegen.err e) set h = cc

  load-Reloaded :
      (paths : List String) (set : CompiledRuleSet)
      → load read tokenize verify jit host paths ≡ ok set
      → Reloaded paths set
  unfolding parse_rules
  load-Reloaded paths set h =
      let (source, r, h1) = then-ok (read_all read paths "") _ h in
      let (rules, p, c) = then-ok (parse_rules tokenize source) _ h1 in
      let (tokens, t, h2) = then-ok (scanned_tokens (tokenize source)) _ p in
      let (file, f, h3) = then-ok (parsed_file (parse tokens)) _ h2 in
      let (typed, same) = checked-ok (check file) file rules h3 in
      record {
        source = source;
        tokens = tokens;
        file = file;
        is_read = r;
        is_scanned = scanned-ok (tokenize source) tokens t;
        is_parsed = parsed-ok (parse tokens) file f;
        is_typed = (check-ok_iff file).0 typed;
        is_compiled =
            ap (compile verify jit host) (sym same)
            ∙ compiled-ok (compile verify jit host rules) set c;
      }

  -- No stage panics.
  abbrev Survives : {A : Type 0} → Loaded A → Type 0
  Survives (ok a) = Unit
  Survives (err e) = Unit
  Survives panicked = ⊥

  then-Survives :
      {A B : Type 0} (r : Loaded A) (f : A → Loaded B)
      → Survives r
      → ((a : A) → Survives (f a))
      → Survives (r >>= f)
  then-Survives (ok a) f h k = k a
  then-Survives (err e) f h k = tt
  then-Survives panicked f h k = h

  read_all-Survives :
      (paths : List String) (all_source : String) → Survives (read_all read paths all_source)
  unfolding read_all
  read_all-Survives [] all_source = tt
  read_all-Survives (path ∷ paths) all_source =
      go (read path) (λ content. read_all-Survives paths _)
    where
      go :
          (o : Option String)
          → ((content : String)
              → Survives (read_all read paths (str_append (str_append all_source content) "\n")))
          → Survives (elim o as (λ o. Loaded String) [
            | none ↦ err (ScriptError.io path)
            | some content ↦ read_all read paths (str_append (str_append all_source content) "\n")
          ])
      go none k = tt
      go (some content) k = k content

  parsed_file-Survives : (p : Parsed) → IsAnswer p → Survives (parsed_file p)
  parsed_file-Survives (Parsed.ok file) h = tt
  parsed_file-Survives (Parsed.err errors) h = tt
  parsed_file-Survives Parsed.crashed h = h

  scanned-Survives : (t : Scanned) → Survives (scanned_tokens t)
  scanned-Survives (scanned tokens) = tt
  scanned-Survives (refused message) = tt

  checked-Survives : (file : RuleFile) (c : Checked) → Survives (checked_rules file c)
  checked-Survives file Checked.ok = tt
  checked-Survives file (errs errors) = tt

  compiled-Survives : (c : Codegen.Result CompiledRuleSet) → Survives (compiled_set c)
  compiled-Survives (Codegen.ok set) = tt
  compiled-Survives (Codegen.err e) = tt

  load-Survives : (paths : List String) → Survives (load read tokenize verify jit host paths)
  unfolding parse_rules
  load-Survives paths = then-Survives _ _ (read_all-Survives paths "") λ source.
      then-Survives (parse_rules tokenize source) _
        (then-Survives _ _ (scanned-Survives (tokenize source)) λ tokens.
          then-Survives _ _ (parsed_file-Survives (parse tokens) (parse-IsAnswer tokens))
            λ file. checked-Survives file (check file))
        (λ rules. compiled-Survives (compile verify jit host rules))

  -- A reload never panics. Either it fails with an error and the rules stay as they were, or it
  -- succeeds and stores the rule set compiled from the rules of the files, which are read, scanned,
  -- parsed and well typed; the watched paths stay in both cases.
  pub recompile-cases :
      (h : HotReloader)
      → ((e : ScriptError) × (recompile read tokenize verify jit host h ≡ (h, err e)))
        ⊎ ((set : CompiledRuleSet) × Reloaded h.watch_paths set
            × (recompile read tokenize verify jit host h ≡ (record h { rules = set }, ok tt)))
  unfolding recompile
  recompile-cases h =
      go (load read tokenize verify jit host h.watch_paths) refl (load-Survives h.watch_paths)
    where
      go :
          (l : Loaded CompiledRuleSet)
          → load read tokenize verify jit host h.watch_paths ≡ l
          → Survives l
          → ((e : ScriptError) × (stored read tokenize verify jit host h l ≡ (h, err e)))
            ⊎ ((set : CompiledRuleSet) × Reloaded h.watch_paths set
                × (stored read tokenize verify jit host h l ≡ (record h { rules = set }, ok tt)))
      go (ok set) e k = inr (set, load-Reloaded h.watch_paths set e, refl)
      go (err x) e k = inl (x, refl)
      go panicked e k = absurd k
