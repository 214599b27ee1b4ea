-- ===== src/Script/Codegen/Accepted.antt =====
-- Which comparisons pass both the type checker (crates/aether-script/src/types.rs) and the code
-- generator (crates/aether-script/src/codegen.rs).
use aether_terminal.Prelude.{◌≡◌, ◌⊎◌, String}
use aether_terminal.Script.Ast.{int, float, percent, Expr, field_access, literal}
use aether_terminal.Script.Types
use aether_terminal.Script.Types.{with_builtins, resolve_expr}

-- The fields that can be compared with a literal in a rule that passes both stages.
abbrev pub IsFloatField : String → Type 0
IsFloatField field = (field ≡ "cpu") ⊎ ((field ≡ "mem_growth") ⊎ (field ≡ "hp"))

abbrev pub IsUsable : String → Expr → Type 0
IsUsable field (literal (int n)) = (field ≡ "pid") ⊎ (field ≡ "mem_bytes")
IsUsable field (literal (float x)) = IsFloatField field
IsUsable field (literal (percent x)) = IsFloatField field
IsUsable field _ = ⊥

-- The types of the process's fields for the type checker.
abbrev Field : String → Types.Resolved → Type 0
Field field r = resolve_expr with_builtins (field_access "process" field) ≡ r
