-- ===== src/Generator/Visit/Operators.antt =====
-- rinja_derive/src/generator/expr.rs: what the visitors of operators, lists and tuples write around
-- the expressions inside.
use rinja.Base.{Option, List, ◌++◌, String, codes}
use rinja.Generator.Writables.{DisplayWrap, unwrapped}
use rinja.Generator.Visit.{Visit, ◌>>◌, pure, write}
use rinja.Generator.Visit.Arguments.{Arg}
use rinja.Generator.Visit.Parts.{spaced, tuple_items, array_items, opt_visit, try_end}

unfoldable pub visit_array : List Arg → Visit DisplayWrap
unfolding write array_items
visit_array elements = do
  write (codes "[")
  array_items 0 elements
  write (codes "]")
  pure unwrapped

unfoldable pub visit_tuple : List Arg → Visit DisplayWrap
unfolding write tuple_items
visit_tuple exprs = do write (codes "("); tuple_items 0 exprs; write (codes ")"); pure unwrapped

unfoldable pub visit_index : Visit DisplayWrap → Visit DisplayWrap → Visit DisplayWrap
unfolding write
visit_index obj key = do
  write (codes "&")
  obj
  write (codes "[")
  key
  write (codes "]")
  pure unwrapped

unfoldable pub visit_unary : String → Visit DisplayWrap → Visit DisplayWrap
unfolding write
visit_unary op inner = do write (codes op); inner; pure unwrapped

unfoldable pub visit_binop : String → Visit DisplayWrap → Visit DisplayWrap → Visit DisplayWrap
unfolding write
visit_binop op left right = do left; write (spaced op); right; pure unwrapped

unfoldable pub visit_range :
    String → Option (Visit DisplayWrap) → Option (Visit DisplayWrap) → Visit DisplayWrap
unfolding write opt_visit
visit_range op left right = do opt_visit left; write (codes op); opt_visit right; pure unwrapped

unfoldable pub visit_group : Visit DisplayWrap → Visit DisplayWrap
unfolding write
visit_group inner = do write (codes "("); inner; write (codes ")"); pure unwrapped

unfoldable pub visit_try : Visit DisplayWrap → Visit DisplayWrap
unfolding write
visit_try e = do write (codes "match ("); e; write try_end; pure unwrapped

unfoldable pub visit_named_argument : Visit DisplayWrap → Visit DisplayWrap
visit_named_argument e = do e; pure unwrapped

unfoldable pub visit_as : String → Visit DisplayWrap → Visit DisplayWrap
unfolding write
visit_as target e = do
  write (codes "rinja::helpers::get_primitive_value(&(")
  e
  write (codes ")) as rinja::helpers::core::primitive::" ++ codes target)
  pure unwrapped
