-- ===== src/Script/Codegen/Layout.antt =====
-- The layout of `WorldStateFFI` (crates/aether-script/src/codegen.rs, `#[repr(C)]`) against the
-- offsets that the code generator reads.
use aether_terminal.Prelude.{
  ℕ, ◌+◌, ◌-◌, ◌*◌, ◌/◌, ◌≡◌, refl, String, Option, none, some, List, [], ◌∷◌, str_eq, string_eq,
  if◌then◌else◌,
}
use aether_terminal.Prelude.Map.{Map, lookup}
use aether_terminal.Script.Codegen.{Ty, i32, i64, f32, Result, ok, resolve_field}
use aether_terminal.Script.Codegen.Fragment.{IsOk}
use aether_terminal.Script.Codegen.Fields.{
  Named, pid, cpu, cpu_percent, mem, mem_bytes, mem_growth, mem_growth_percent, state, hp, named,
}

pub data CType : Type 0 where
  u32 float u64 pointer : CType

-- Size and alignment, which agree for these types.
abbrev pub size_of : CType → ℕ
size_of u32 = 4
size_of float = 4
size_of u64 = 8
size_of pointer = 8

-- The struct's fields in order.
abbrev pub state_fields : List (String × CType)
state_fields =
    ("pid", u32)
    ∷ ("cpu_percent", float)
    ∷ ("mem_bytes", u64)
    ∷ ("mem_growth_percent", float)
    ∷ ("state", u32)
    ∷ ("hp", float)
    ∷ ("name_ptr", pointer)
    ∷ ("name_len", u32)
    ∷ ("process_count", u32)
    ∷ ("processes_ptr", pointer)
    ∷ []

-- `repr(C)` puts each field at the next multiple of its alignment.
unfoldable pub layout : ℕ → List (String × CType) → Map String (ℕ × CType)
layout next [] = []
layout next ((name, c) ∷ fields) =
    let offset : ℕ = (next + (size_of c - 1)) / size_of c * size_of c in
    (name, (offset, c)) ∷ layout (offset + size_of c) fields

abbrev pub machine_type : CType → Ty
machine_type u32 = i32
machine_type float = f32
machine_type u64 = i64
machine_type pointer = i64

-- The struct's field behind a field of the rule language.
abbrev pub struct_name : String → String
struct_name field =
    if str_eq field "cpu"
    then "cpu_percent"
    else if str_eq field "mem"
    then "mem_bytes"
    else if str_eq field "mem_growth"
    then "mem_growth_percent"
    else field

abbrev pub ReadsField : String → Result (ℕ × Ty) → Option (ℕ × CType) → Type 0
ReadsField field place none = ⊥
ReadsField field place (some (offset, c)) = place ≡ ok (offset, machine_type c)

-- Every field that the code generator resolves is read at the offset, and at the machine type,
-- that `repr(C)` gives to the field of the state record with its name.
pub resolve_field-ReadsField :
    (object field : String)
    → IsOk (resolve_field object field)
    → ReadsField field
        (resolve_field object field)
        (lookup (struct_name field) (layout 0 state_fields))
unfolding resolve_field layout lookup
resolve_field-ReadsField object field h = let (e, n) = named object field h in rw e (go n)
  where
    go :
        Named field
        → ReadsField field
            (resolve_field "process" field)
            (lookup (struct_name field) (layout 0 state_fields))
    go (pid e) = rw e refl
    go (cpu e) = rw e refl
    go (cpu_percent e) = rw e refl
    go (mem e) = rw e refl
    go (mem_bytes e) = rw e refl
    go (mem_growth e) = rw e refl
    go (mem_growth_percent e) = rw e refl
    go (state e) = rw e refl
    go (hp e) = rw e refl
