-- ===== src/Script/Codegen/Fields.antt =====
-- The fields that crates/aether-script/src/codegen.rs resolves.
use aether_terminal.Prelude.{
  ◌≡◌, refl, ◌⊎◌, inl, inr, String, Bool, true, false, arith, str_eq, str_eq_iff, if◌then◌else◌,
  ◌||◌,
}
use aether_terminal.Script.Codegen.{Result, resolve_field}
use aether_terminal.Script.Codegen.Fragment.{IsOk}

-- The names that `resolve_field` knows.
pub data Named (field : String) : Type 0 where
  pid : field ≡ "pid" → Named field
  cpu : field ≡ "cpu" → Named field
  cpu_percent : field ≡ "cpu_percent" → Named field
  mem : field ≡ "mem" → Named field
  mem_bytes : field ≡ "mem_bytes" → Named field
  mem_growth : field ≡ "mem_growth" → Named field
  mem_growth_percent : field ≡ "mem_growth_percent" → Named field
  state : field ≡ "state" → Named field
  hp : field ≡ "hp" → Named field

-- A successful test, or success further down.
branch :
    {A : Type 0} (b : Bool) (x y : Result A)
    → IsOk (if b then x else y)
    → ((b ≡ true) × IsOk x) ⊎ IsOk y
branch true x y h = inl (refl, h)
branch false x y h = inr h

either : (a b : Bool) → (a || b) ≡ true → (a ≡ true) ⊎ (b ≡ true)
either a b h = ground arith

pub named :
    (object field : String) → IsOk (resolve_field object field) → (object ≡ "process") × Named field
unfolding resolve_field
named object field h = elim (branch (str_eq object "process") _ _ h) [
  | inr h ↦ absurd h
  | inl (e, h) ↦ (
    (str_eq_iff object "process").0 e,
    elim (branch (str_eq field "pid") _ _ h) [
      | inl (e, _) ↦ pid (name "pid" e)
      | inr h ↦ elim (branch (str_eq field "cpu" || str_eq field "cpu_percent") _ _ h) [
        | inl (e, _) ↦ elim (either _ _ e) [
          | inl e ↦ cpu (name "cpu" e)
          | inr e ↦ cpu_percent (name "cpu_percent" e)
        ]
        | inr h ↦ elim (branch (str_eq field "mem" || str_eq field "mem_bytes") _ _ h) [
          | inl (e, _) ↦ elim (either _ _ e) [
            | inl e ↦ mem (name "mem" e)
            | inr e ↦ mem_bytes (name "mem_bytes" e)
          ]
          | inr h ↦
              elim (branch (str_eq field "mem_growth" || str_eq field "mem_growth_percent") _ _ h) [
                | inl (e, _) ↦ elim (either _ _ e) [
                  | inl e ↦ mem_growth (name "mem_growth" e)
                  | inr e ↦ mem_growth_percent (name "mem_growth_percent" e)
                ]
                | inr h ↦ elim (branch (str_eq field "state") _ _ h) [
                  | inl (e, _) ↦ state (name "state" e)
                  | inr h ↦ elim (branch (str_eq field "hp") _ _ h) [
                    | inl (e, _) ↦ hp (name "hp" e)
                    | inr h ↦ absurd h
                  ]
                ]
              ]
        ]
      ]
    ],
  )
]
  where
    name : (n : String) → str_eq field n ≡ true → field ≡ n
    name n e = (str_eq_iff field n).0 e
