-- ===== src/Script/Codegen/Compilable.antt =====
-- The comparisons for which crates/aether-script/src/codegen.rs emits code, by the names of the
-- fields and the kinds of the literals.
use aether_terminal.Prelude.{◌≡◌, ◌⊎◌, String}
use aether_terminal.Script.Ast.{
  Literal, int, float, percent, duration, Expr, field_access, literal, Condition, comparison,
}
use aether_terminal.Script.Codegen.{resolve_field}
use aether_terminal.Script.Codegen.Fragment.{PlaceFits}

abbrev pub IsWhole : String → Type 0
IsWhole field = (field ≡ "pid") ⊎ ((field ≡ "state") ⊎ ((field ≡ "mem") ⊎ (field ≡ "mem_bytes")))

abbrev pub IsFractional : String → Type 0
IsFractional field =
    (field ≡ "cpu")
    ⊎ ((field ≡ "cpu_percent")
        ⊎ ((field ≡ "mem_growth") ⊎ ((field ≡ "mem_growth_percent") ⊎ (field ≡ "hp"))))

-- The literals that a field of the process can be compared with.
abbrev pub TakesLiteral : String → Literal → Type 0
TakesLiteral field (int n) = IsWhole field
TakesLiteral field (float x) = IsFractional field
TakesLiteral field (percent x) = IsFractional field
TakesLiteral field _ = ⊥

abbrev pub IsComparable : Expr → Expr → Type 0
IsComparable (field_access object field) (literal lit) =
    (object ≡ "process") × TakesLiteral field lit
IsComparable _ _ = ⊥

abbrev pub AllComparable : Condition → Type 0
AllComparable (comparison left op right) = IsComparable left right
AllComparable (Condition.duration c seconds) = AllComparable c
AllComparable (Condition.and l r) = AllComparable l × AllComparable r
AllComparable (Condition.or l r) = AllComparable l × AllComparable r
AllComparable (Condition.not c) = AllComparable c

-- The literal fits the place of a field whose name is known.
abbrev At : Literal → String → Type 0
At lit field = PlaceFits (resolve_field "process" field) (literal lit)
