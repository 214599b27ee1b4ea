-- ===== src/Script/Types.antt =====
-- The type checker of crates/aether-script/src/types.rs. A message is a constructor that holds
-- what the source formats into the text.
pub mod Laws
use aether_terminal.Prelude.{
  String, Bool, true, false, not, ◌&&◌, ◌||◌, Option, none, some, List, [], ◌∷◌, ◌++◌, str_eq,
  string_eq, if◌then◌else◌,
}
use aether_terminal.Prelude.Map.{Map, lookup}
use aether_terminal.Script.Ast.{
  CmpOp, gt, lt, gte, lte, Literal, Expr, field_access, literal, Condition, comparison, Action,
  Rule, RuleFile,
}

pub data AetherType : Type 0 where
  percent duration int float str bool process_state process system : AetherType

unfoldable pub is_numeric : AetherType → Bool
is_numeric percent = true
is_numeric int = true
is_numeric float = true
is_numeric duration = true
is_numeric _ = false

-- The derived `==`.
unfoldable pub type_eq : AetherType → AetherType → Bool
type_eq percent percent = true
type_eq duration duration = true
type_eq int int = true
type_eq float float = true
type_eq str str = true
type_eq bool bool = true
type_eq process_state process_state = true
type_eq process process = true
type_eq system system = true
type_eq _ _ = false

unfoldable pub compatible_with : AetherType → AetherType → Bool
unfolding is_numeric type_eq
compatible_with self other =
    if type_eq self other
    then true
    else if is_numeric self && is_numeric other
    then (if type_eq self duration || type_eq other duration
        then type_eq self duration && type_eq other duration
        else true)
    else false

pub data TypeError : Type 0 where
  unknown_object : String → TypeError
  unknown_field : String → String → TypeError
  not_ordered : CmpOp → AetherType → TypeError
  mismatch : AetherType → AetherType → TypeError
  empty_alert empty_log : TypeError

pub data Resolved : Type 0 where
  ok : AetherType → Resolved
  err : TypeError → Resolved

pub record TypeEnv : Type 0 where
  pub objects : Map String (Map String AetherType)

abbrev pub process_fields : Map String AetherType
process_fields =
    ("cpu", percent)
    ∷ ("mem_bytes", int)
    ∷ ("mem_growth", percent)
    ∷ ("state", process_state)
    ∷ ("name", str)
    ∷ ("pid", int)
    ∷ ("parent", str)
    ∷ ("hp", percent)
    ∷ []

abbrev pub system_fields : Map String AetherType
system_fields = ("load", percent) ∷ ("total_mem", int) ∷ ("process_count", int) ∷ []

unfoldable pub with_builtins : TypeEnv
with_builtins = record { objects = ("process", process_fields) ∷ ("system", system_fields) ∷ [] }

abbrev pub found_field : String → String → Option AetherType → Resolved
found_field object field none = err (unknown_field object field)
found_field object field (some t) = ok t

abbrev pub found_object : String → String → Option (Map String AetherType) → Resolved
found_object object field none = err (unknown_object object)
found_object object field (some fields) = found_field object field (lookup field fields)

unfoldable pub resolve_field : TypeEnv → String → String → Resolved
resolve_field env object field = found_object object field (lookup object env.objects)

unfoldable pub literal_type : Literal → AetherType
literal_type (Literal.int _) = int
literal_type (Literal.float _) = float
literal_type (Literal.percent _) = percent
literal_type (Literal.duration _) = duration
literal_type (Literal.str _) = str

unfoldable pub resolve_expr : TypeEnv → Expr → Resolved
unfolding literal_type
resolve_expr env (field_access object field) = resolve_field env object field
resolve_expr env (literal lit) = ok (literal_type lit)

abbrev pub is_ordered : CmpOp → Bool
is_ordered gt = true
is_ordered lt = true
is_ordered gte = true
is_ordered lte = true
is_ordered _ = false

-- What `check_comparison` pushes once both sides have a type.
unfoldable pub compare_types : AetherType → CmpOp → AetherType → List TypeError
unfolding is_numeric compatible_with
compare_types left_ty op right_ty =
    if is_ordered op && not (is_numeric left_ty)
    then not_ordered op left_ty ∷ []
    else if not (compatible_with left_ty right_ty)
    then mismatch left_ty right_ty ∷ []
    else []

abbrev pub compare_resolved : Resolved → CmpOp → Resolved → List TypeError
compare_resolved (err e) op right = e ∷ []
compare_resolved (ok left_ty) op (err e) = e ∷ []
compare_resolved (ok left_ty) op (ok right_ty) = compare_types left_ty op right_ty

-- The checks push to one vector of errors: each takes it and returns it.
unfoldable pub check_comparison : TypeEnv → Expr → CmpOp → Expr → List TypeError → List TypeError
check_comparison env left op right errors =
    errors ++ compare_resolved (resolve_expr env left) op (resolve_expr env right)

unfoldable pub check_condition : TypeEnv → Condition → List TypeError → List TypeError
check_condition env (comparison left op right) errors = check_comparison env left op right errors
check_condition env (Condition.duration c seconds) errors = check_condition env c errors
check_condition env (Condition.and l r) errors =
    check_condition env r (check_condition env l errors)
check_condition env (Condition.or l r) errors = check_condition env r (check_condition env l errors)
check_condition env (Condition.not c) errors = check_condition env c errors

unfoldable pub check_action : Action → List TypeError → List TypeError
check_action (Action.alert message severity) errors =
    if str_eq message "" then errors ++ empty_alert ∷ [] else errors
check_action (Action.log message) errors =
    if str_eq message "" then errors ++ empty_log ∷ [] else errors
check_action Action.kill errors = errors

unfoldable pub check_actions : List Action → List TypeError → List TypeError
check_actions [] errors = errors
check_actions (a ∷ actions) errors = check_actions actions (check_action a errors)

unfoldable pub check_rule : TypeEnv → Rule → List TypeError → List TypeError
check_rule env r errors = check_actions r.actions (check_condition env r.condition errors)

unfoldable pub check_rules : TypeEnv → List Rule → List TypeError → List TypeError
check_rules env [] errors = errors
check_rules env (r ∷ rules) errors = check_rules env rules (check_rule env r errors)

pub data Checked : Type 0 where
  ok : Checked
  errs : List TypeError → Checked

abbrev pub verdict : List TypeError → Checked
verdict [] = Checked.ok
verdict (e ∷ es) = errs (e ∷ es)

-- `TypeChecker::new().check(file)`.
unfoldable pub check : RuleFile → Checked
unfolding check_rules with_builtins
check file = verdict (check_rules with_builtins file.rules [])
