-- ===== src/Parser/Target.antt =====
-- rinja_parser/src/target.rs: the patterns of `let`, `match` and `for`. `Targets` is
-- `Vec<Target>`, and `FieldTargets` that of the fields of a `struct`.
use rinja.Base.{Option, List, String}
use rinja.Parser.Expr.{Num, StrLit, CharLit}

mutual
  pub data Target : Type 0 where
    name : String → Target
    tuple : List String → Targets → Target
    array : List String → Targets → Target
    struct : List String → FieldTargets → Target
    num_lit : String → Num → Target
    str_lit : StrLit → Target
    char_lit : CharLit → Target
    bool_lit : String → Target
    path : List String → Target
    or_chain : Targets → Target
    placeholder : Target
    rest : Option String → Target

  pub data Targets : Type 0 where
    nil : Targets
    cons : Target → Targets → Targets

  pub data FieldTargets : Type 0 where
    nil_fields : FieldTargets
    field : String → Target → FieldTargets → FieldTargets
