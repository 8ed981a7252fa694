-- ===== src/Parser/Expr.antt =====
-- rinja_parser/src/expr.rs and rinja_parser/src/lib.rs: the syntax of expressions. Spans are left
-- out, as they are in the source's comparison of nodes; `T` is the type of the targets of
-- `if let`, which stand for themselves here.
use rinja.Base.{Bool, true, false, ◌||◌, Option, String, List, if◌then◌else◌, str_eq}

pub data IntKind : Type 0 where
  i8 i16 i32 i64 i128 isize u8 u16 u32 u64 u128 usize : IntKind

pub data FloatKind : Type 0 where
  f16 f32 f64 f128 : FloatKind

pub data Num : Type 0 where
  int : String → Option IntKind → Num
  float : String → Option FloatKind → Num

pub data StrPrefix : Type 0 where
  binary c_like : StrPrefix

pub record StrLit : Type 0 where
  pub prefix : Option StrPrefix
  pub content : String

pub data CharPrefix : Type 0 where
  binary : CharPrefix

pub record CharLit : Type 0 where
  pub prefix : Option CharPrefix
  pub content : String

-- `Exprs` is `Vec<Expr>` and `OptExpr` is `Option<Box<Expr>>`; the two arguments of `filter` are
-- the fields of `Filter`, and the three of `let_cond` those of `CondTest`.
mutual
  pub data Expr (T : Type 0) : Type 0 where
    bool_lit : Bool → Expr T
    num_lit : String → Num → Expr T
    str_lit : StrLit → Expr T
    char_lit : CharLit → Expr T
    var : String → Expr T
    path : List String → Expr T
    array : Exprs T → Expr T
    attr : Expr T → String → Expr T
    index : Expr T → Expr T → Expr T
    filter : String → Exprs T → Expr T
    cast : Expr T → String → Expr T
    named_argument : String → Expr T → Expr T
    unary : String → Expr T → Expr T
    bin_op : String → Expr T → Expr T → Expr T
    range : String → OptExpr T → OptExpr T → Expr T
    group : Expr T → Expr T
    tuple : Exprs T → Expr T
    call : Expr T → Exprs T → Expr T
    rust_macro : List String → String → Expr T
    try : Expr T → Expr T
    filter_source : Expr T
    is_defined : String → Expr T
    is_not_defined : String → Expr T
    concat : Exprs T → Expr T
    let_cond : Option T → Expr T → Bool → Expr T

  pub data Exprs (T : Type 0) : Type 0 where
    nil : Exprs T
    cons : Expr T → Exprs T → Exprs T

  pub data OptExpr (T : Type 0) : Type 0 where
    absent : OptExpr T
    present : Expr T → OptExpr T

-- `Expr::contains_bool_lit_or_is_defined`
unfoldable pub contains_bool_lit_or_is_defined : {T : Type 0} → Expr T → Bool
contains_bool_lit_or_is_defined (bool_lit b) = true
contains_bool_lit_or_is_defined (is_defined v) = true
contains_bool_lit_or_is_defined (is_not_defined v) = true
contains_bool_lit_or_is_defined (unary op e) = contains_bool_lit_or_is_defined e
contains_bool_lit_or_is_defined (group e) = contains_bool_lit_or_is_defined e
contains_bool_lit_or_is_defined (bin_op op l r) =
    if str_eq op "&&" || str_eq op "||"
    then contains_bool_lit_or_is_defined l || contains_bool_lit_or_is_defined r
    else false
contains_bool_lit_or_is_defined _ = false
