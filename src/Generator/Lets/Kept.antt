-- ===== src/Generator/Lets/Kept.antt =====
-- `write_let` of rinja_derive/src/generator/node.rs: what is buffered keeps its meaning.
use rinja.Base.{
  ℕ, Bool, true, false, some, [], ◌≡◌, ◌⊎◌, ap, ◌∙◌, refl, arith, Bytes, Option-cases, inl, inr, ok,
}
use rinja.Parser.Target.{Target}
use rinja.Parser.Whitespace.{Ws}
use rinja.Parser.Keywords.{normalize_identifier}
use rinja.Parser.Node.{TargetExpr}
use rinja.Generator.{handle_ws}
use rinja.Generator.Writables.{DisplayWrap}
use rinja.Generator.Scopes.{LocalMeta, get, resolve}
use rinja.Generator.Visit.{Input, Visiting}
use rinja.Generator.Visit.Bindings.{bindings}
use rinja.Generator.Lets.{
  is_shadowing_variable, Writing, answer, value_code, flush_if, write_assignment, write_let,
}
use rinja.Generator.Lets.Shadowing.{
  bindings-Apart, get-insert_all, write_assignment-cases, flush_lem, answer_lem, normalized_again,
  some-injective,
}

module _ (input : Input) (to_string : ℕ → Bytes) where
  write_assignment-get :
      (var : Target) (val : TargetExpr) (code n : Bytes) (meta : LocalMeta) (shadowed : Bool)
      (w w' : Writing)
      → normalize_identifier n ≡ some n
      → get n w.visiting.locals ≡ some meta
      → meta.initialized ≡ true
      → is_shadowing_variable w.visiting.locals var ≡ ok shadowed
      → write_assignment input to_string var val code shadowed w ≡ some w'
      → (w'.generator.buf ≡ []) ⊎ (get n w'.visiting.locals ≡ get n w.visiting.locals)
  unfolding flush_if
  write_assignment-get var val code n meta true w w' raw known ready is h =
      let (v, flushed, same, inserted) =
        write_assignment-cases input to_string var val code true w w' h in
      inl (ap (λ g. g.buf) same ∙ (flush_lem input to_string w v flushed).0)
  write_assignment-get var val code n meta false w w' raw known ready is h =
      let (v, kept, same, inserted) =
        write_assignment-cases input to_string var val code false w w' h in
      let unchanged = some-injective kept in
      inr (
        get-insert_all n (bindings true var) w.visiting.locals w'.visiting.locals
          (bindings-Apart w.visiting.locals n meta raw known ready var is)
          (rw (ap (λ u. u.visiting.locals) unchanged) inserted))

  -- For a `let` with a value that returns, and every variable that has a value where the code of
  -- the new value is finished: nothing that was buffered is left to be written behind the `let`, or
  -- the variable resolves behind it to what it did before.
  pub write_let-resolve :
      (ws : Ws) (var : Target) (val : TargetExpr) (x n code : Bytes) (wrap : DisplayWrap)
      (meta : LocalMeta) (s : Visiting) (w w' : Writing)
      → value_code input to_string val w.visiting ≡ some ((wrap, code), s)
      → normalize_identifier x ≡ some n
      → get n s.locals ≡ some meta
      → meta.initialized ≡ true
      → write_let input to_string ws var (some val) w ≡ some w'
      → (w'.generator.buf ≡ []) ⊎ (resolve x w'.visiting.locals ≡ resolve x s.locals)
  unfolding write_let
  write_let-resolve ws var val x n code wrap meta s w w' visited raw known ready h =
      elim (Option-cases (answer (is_shadowing_variable s.locals var))) [
        | inl stuck ↦ absurd (ground (arith, visited))
        | inr (shadowed, is) ↦
            elim (write_assignment-get var val code n meta shadowed
              record { visiting = s; generator = handle_ws ws w.generator } w'
              (normalized_again x n raw) known ready
              (answer_lem (is_shadowing_variable s.locals var) shadowed is)
              (rw is at (rw visited at h))) [
                | inl empty ↦ inl empty
                | inr same ↦ inr (unfold resolve in rw (raw, same) refl)
              ]
      ]
