-- ===== src/Generator/Visit/Balance/Formats.antt =====
-- rinja_derive/src/generator/expr.rs: the code of `format`, `fmt` and `join`, and of every filter, is
-- closed, where that of its arguments is.
use rinja.Base.{
  ℕ, ◌+◌, Bool, true, false, Option, none, some, List, [], ◌∷◌, ◌≡◌, refl, arith, if◌then◌else◌,
  codes, ltb, ◌==◌, All, is_empty, String,
}
use rinja.Parser.Expr.{StrLit}
use rinja.Generator.Writables.{unwrapped}
use rinja.Generator.Visit.{Visit, Input, pure}
use rinja.Generator.Visit.Arguments.{Arg}
use rinja.Generator.Visit.Filters.{as_literal}
use rinja.Generator.Visit.Formats.{
  more_args, format_literal, visit_format_filter, fmt_literal, visit_fmt_filter, join_args,
  visit_join_filter, visit_filter,
}
use rinja.Generator.Visit.Balance.{IsClosed, scan}
use rinja.Generator.Visit.Balance.Rules.{
  Writes, ◌before◌, pure_lem, refuse_lem, write_lem, when_lem, choose,
}
use rinja.Generator.Visit.Balance.Arguments.{
  IsInput, OptStrIsClosed, ArgWrites, args-Writes, alloc-Writes, call_end,
}
use rinja.Generator.Visit.Balance.Leaves.{done, visit_str_lit-Writes}
use rinja.Generator.Visit.Balance.Filters.{
  custom-Writes, builtin-Writes, urlencode-Writes, humansize-Writes, linebreaks-Writes,
  pluralize-Writes, ref-Writes, deref-Writes, json-Writes, safe-Writes, escape-Writes,
}

module _ (input : Input) (is : IsInput input) where
  more_args-Writes :
      (args : List Arg) {due : List ℕ}
      → All (ArgWrites input) args
      → Writes due due (more_args input args)
  unfolding more_args scan
  more_args-Writes [] h = pure_lem tt tt
  more_args-Writes (arg ∷ args) h =
      write_lem (codes ",") record { scans = refl } before λ _. args-Writes input is (arg ∷ args) h

  format_literal-Writes :
      (o : Option StrLit) (args : List Arg) {due : List ℕ}
      → OptStrIsClosed o
      → All (ArgWrites input) args
      → Writes due due (format_literal input o args)
  unfolding format_literal scan
  format_literal-Writes none args h k = refuse_lem _
  format_literal-Writes (some fmt) args h k =
      write_lem (codes "rinja::helpers::alloc::format!(") record { scans = refl } before λ _.
      visit_str_lit-Writes fmt h before λ _. more_args-Writes args k before λ _.
      done unwrapped (write_lem (codes ")") record { scans = refl })

  format-Writes :
      (name : String) (args : List Arg) {due : List ℕ}
      → All (ArgWrites input) args
      → Writes due due (visit_format_filter input name args)
  unfolding visit_format_filter
  format-Writes name [] h = alloc-Writes input is name before λ _. refuse_lem _
  format-Writes name (fmt ∷ args) (h, k) = alloc-Writes input is name before λ _.
      format_literal-Writes (as_literal input fmt.value) args h.literal_closed k

  fmt_literal-Writes :
      (o : Option StrLit) (arg : Arg) {due : List ℕ}
      → OptStrIsClosed o
      → ArgWrites input arg
      → Writes due due (fmt_literal input o arg)
  unfolding fmt_literal scan
  fmt_literal-Writes none arg h k = refuse_lem _
  fmt_literal-Writes (some fmt) arg h k =
      write_lem (codes "rinja::helpers::alloc::format!(") record { scans = refl } before λ _.
      visit_str_lit-Writes fmt h before λ _.
      write_lem (codes ",") record { scans = refl } before λ _.
      args-Writes input is (arg ∷ []) (k, tt) before λ _.
      done unwrapped (write_lem (codes ")") record { scans = refl })

  fmt-Writes :
      (name : String) (args : List Arg) {due : List ℕ}
      → All (ArgWrites input) args
      → Writes due due (visit_fmt_filter input name args)
  unfolding visit_fmt_filter
  fmt-Writes name [] h = alloc-Writes input is name before λ _. refuse_lem _
  fmt-Writes name (_ ∷ []) h = alloc-Writes input is name before λ _. refuse_lem _
  fmt-Writes name (arg ∷ fmt ∷ []) (h, (k, _)) = alloc-Writes input is name before λ _.
      fmt_literal-Writes (as_literal input fmt.value) arg k.literal_closed h
  fmt-Writes name (_ ∷ _ ∷ _ ∷ _) h = alloc-Writes input is name before λ _. refuse_lem _

  skipped :
      {due : List ℕ} (b : Bool) (m : Visit (Unit {0}))
      → b ≡ false
      → Writes due due (if b then m else pure tt)
  skipped true m h = absurd (ground arith)
  skipped false m h = pure_lem tt tt

  more_joined-Writes :
      (i : ℕ) (args : List Arg) {due : List ℕ}
      → (i == 0) ≡ false
      → All (ArgWrites input) args
      → Writes due due (join_args input i args)
  unfolding join_args scan
  more_joined-Writes i [] e h = pure_lem tt tt
  more_joined-Writes i (arg ∷ args) {due} e (own, others) =
      when_lem (ltb 0 i) (write_lem (codes ", &") record { scans = refl }) before λ _.
      own.expr_writes due before λ _.
      skipped (i == 0) _ e before λ _. more_joined-Writes (i + 1) args (ground arith) others

  join-Writes :
      (args : List Arg) {due : List ℕ}
      → is_empty args ≡ false
      → All (ArgWrites input) args
      → Writes due due (visit_join_filter input args)
  unfolding visit_join_filter join_args scan
  join-Writes [] filled h = absurd (ground arith)
  join-Writes (arg ∷ args) {due} filled (own, others) =
      write_lem (codes "rinja::filters::join((&") record { scans = refl } before λ _.
      (pure_lem tt tt before λ _. own.expr_writes (b')' ∷ b')' ∷ due) before λ _.
      write_lem (codes ").into_iter()") record { scans = refl } before λ _.
      more_joined-Writes 1 args refl others)
      before λ _. call_end input is unwrapped

  -- Whatever the filter, where its name and its arguments are closed and there is an argument.
  pub visit_filter-Writes :
      (name : String) (args : List Arg) {due : List ℕ}
      → IsClosed (codes name)
      → is_empty args ≡ false
      → All (ArgWrites input) args
      → Writes due due (visit_filter input name args)
  unfolding visit_filter
  visit_filter-Writes name args h filled k = choose _ (deref-Writes input is args k) (
      choose _ (escape-Writes input is args filled k) (
        choose _ (humansize-Writes input is name h args k) (
          choose _ (fmt-Writes name args k) (
            choose _ (format-Writes name args k) (
              choose _ (join-Writes args filled k) (
                choose _ (json-Writes input is args k) (
                  choose _ (linebreaks-Writes input is name h args k) (
                    choose _ (pluralize-Writes input is args k) (
                      choose _ (ref-Writes input is args k) (
                        choose _ (safe-Writes input is args k) (
                          choose _ (urlencode-Writes input is name h args k) (
                            choose _ (builtin-Writes input is name h args k)
                              (custom-Writes input is name h args k)))))))))))))
