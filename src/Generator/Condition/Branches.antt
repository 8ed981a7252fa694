-- ===== src/Generator/Condition/Branches.antt =====
-- The chain of branches that `compute_branches` keeps renders what the whole `if` would render.
use rinja.Base.{
  Bool, true, false, Option, none, some, String, List, [], ◌∷◌, ◌++◌, ◌≡◌, refl, arith,
  if◌then◌else◌, Bool-cases, inl, inr, ap, sym, ◌∙◌, All,
}
use rinja.Parser.Whitespace.{Ws}
use rinja.Parser.Node.{CondTest}
use rinja.Parser.Expr.{Expr}
use rinja.Generator.Condition.{
  EvaluatedResult, always_true, always_false, unknown, Cond, CondInfo, Conds, skip_cond, visit_test,
  visit, stop, visit_all, compute_branches,
}
use rinja.Generator.Condition.Sound.{eval, Holds, evaluate_condition-Agrees}

-- The outcome of a test whose expression is `e`: `binds t e` says whether the value of `e` matches
-- the target `t` of an `if let`.
unfoldable pub passes :
    {T : Type 0}
    → (String → Bool)
    → (Expr T → Bool)
    → (T → Expr T → Bool)
    → Option T
    → Expr T
    → Bool
unfolding eval
passes defined leaf binds none e = eval defined leaf e
passes defined leaf binds (some t) e = binds t e

-- A test that is looked into while the template is compiled has no target.
abbrev pub IsPlain : {T B : Type 0} → Cond T B → Type 0
IsPlain {T} c =
    (test : CondTest T)
    → c.cond ≡ some test
    → test.contains_bool_lit_or_is_defined ≡ true
    → test.target ≡ none

module _ {T B : Type 0} (defined : String → Bool) (leaf : Expr T → Bool)
    (binds : T → Expr T → Bool) where
  -- Whether a branch of the template is entered, and the first one that is.
  unfoldable pub enters : Cond T B → Bool
  unfolding passes
  enters c = elim (c.cond) [
    | none ↦ true
    | some test ↦ passes defined leaf binds test.target test.expr
  ]

  unfoldable pub choose : List (Cond T B) → Option B
  unfolding enters
  choose [] = none
  choose (c ∷ branches) = if enters c then some c.nodes else choose branches

  -- The same of the chain that is generated: the test is the expression that is left, if there is
  -- one, and none at all where the condition is not generated.
  unfoldable pub enters_info : CondInfo T B → Bool
  unfolding passes
  enters_info i = elim (i.cond.cond) [
    | none ↦ true
    | some test ↦
        if i.generate_condition
        then passes defined leaf binds test.target
            (elim (i.cond_expr) [ none ↦ test.expr | some e ↦ e ])
        else true
  ]

  -- A branch without its content renders nothing.
  unfoldable pub choose_info : List (CondInfo T B) → Option B
  unfolding enters_info
  choose_info [] = none
  choose_info (i ∷ infos) =
      if enters_info i
      then if i.generate_content then some i.cond.nodes else none
      else choose_info infos

  -- A chain that goes on by `rest` where no branch was entered.
  choose_then : List (CondInfo T B) → Option B → Option B
  choose_then [] rest = rest
  choose_then (i ∷ infos) rest =
      if enters_info i
      then if i.generate_content then some i.cond.nodes else none
      else choose_then infos rest

  choose_then-append :
      (xs ys : List (CondInfo T B)) (rest : Option B)
      → choose_then (xs ++ ys) rest ≡ choose_then xs (choose_then ys rest)
  unfolding choose_then
  choose_then-append [] ys rest = refl
  choose_then-append (x ∷ xs) ys rest = rw (choose_then-append xs ys rest)

  choose_then-none : (xs : List (CondInfo T B)) → choose_then xs none ≡ choose_info xs
  unfolding choose_then choose_info
  choose_then-none [] = refl
  choose_then-none (x ∷ xs) = rw (choose_then-none xs)

  skip-conds : (c : Cond T B) (acc : Conds T B) → (skip_cond c acc).conds ≡ acc.conds
  unfolding skip_cond
  skip-conds c acc = ground arith

  -- A test with value `b`, of which `res` is known, and of whose expression `e` is left.
  visit_test-choose :
      (ws : Ws) (test : CondTest T) (nodes : B) (e : Option (Expr T)) (res : EvaluatedResult)
      (only b : Bool) (acc : Conds T B) (rest : Option B)
      → Holds res b
      → passes defined leaf binds test.target (elim e [ none ↦ test.expr | some e ↦ e ]) ≡ b
      → let r = visit_test (record { ws = ws; cond = some test; nodes = nodes }) e res only acc in
        choose_then r.0.conds (if r.1 then none else rest)
        ≡ choose_then acc.conds (if b then some nodes else rest)
  unfolding visit_test
  visit_test-choose ws test nodes e always_false true b acc rest h p = rw (skip-conds, h)
  visit_test-choose ws test nodes e always_false false b acc rest h p =
      rw choose_then-append
        (ap (choose_then acc.conds) (unfold choose_then enters_info in rw (p, h)))
  visit_test-choose ws test nodes e always_true true b acc rest h p =
      rw choose_then-append (ap (choose_then acc.conds) (unfold choose_then enters_info in rw h))
  visit_test-choose ws test nodes e always_true false b acc rest h p =
      rw choose_then-append
        (ap (choose_then acc.conds) (unfold choose_then enters_info in rw (p, h)))
  visit_test-choose ws test nodes e unknown only b acc rest h p =
      rw choose_then-append (ap (choose_then acc.conds) (unfold choose_then enters_info in rw p))

  -- One round: what it adds to the chain renders the branch, and where the loop stops nothing
  -- behind it matters.
  visit-choose_some :
      (ws : Ws) (target : Option T) (expr : Expr T) (flag : Bool) (nodes : B) (acc : Conds T B)
      (rest : Option B)
      → (flag ≡ true → target ≡ none)
      → let test : CondTest T = record {
        target = target;
        expr = expr;
        contains_bool_lit_or_is_defined = flag;
      } in
        let r = visit defined (record { ws = ws; cond = some test; nodes = nodes }) acc in
        choose_then r.0.conds (if r.1 then none else rest)
        ≡ choose_then acc.conds (if passes defined leaf binds target expr then some nodes else rest)
  unfolding visit passes
  visit-choose_some ws (some t) expr true nodes acc rest h = cc (h refl)
  visit-choose_some ws none expr true nodes acc rest h =
      let agrees = evaluate_condition-Agrees defined leaf expr true in
      visit_test-choose ws _ nodes _ _ _ _ acc rest agrees.0 agrees.1
  visit-choose_some ws target expr false nodes acc rest h =
      visit_test-choose ws _ nodes none unknown true _ acc rest tt refl

  visit-choose :
      (ws : Ws) (cond : Option (CondTest T)) (nodes : B) (acc : Conds T B) (rest : Option B)
      → IsPlain (record { ws = ws; cond = cond; nodes = nodes })
      → let r = visit defined (record { ws = ws; cond = cond; nodes = nodes }) acc in
        choose_then r.0.conds (if r.1 then none else rest)
        ≡ choose_then acc.conds
            (if enters (record { ws = ws; cond = cond; nodes = nodes }) then some nodes else rest)
  unfolding visit enters
  visit-choose ws none nodes acc rest h =
      rw choose_then-append (ap (choose_then acc.conds) (unfold choose_then enters_info in refl))
  visit-choose ws (some test) nodes acc rest h =
      visit-choose_some ws test.target test.expr test.contains_bool_lit_or_is_defined nodes acc rest
        (h test refl)

  stop-conds :
      (branches : List (Cond T B)) (acc : Conds T B) → (stop branches acc).conds ≡ acc.conds
  unfolding stop
  stop-conds [] acc = refl
  stop-conds (c ∷ branches) acc = refl

  visit_all-choose :
      (branches : List (Cond T B)) (acc : Conds T B)
      → All IsPlain branches
      → choose_then (visit_all defined branches acc).conds none
        ≡ choose_then acc.conds (choose branches)
  unfolding visit_all choose
  visit_all-choose [] acc h = refl
  visit_all-choose (c ∷ branches) acc (hc, h) =
      let round = visit-choose c.ws c.cond c.nodes acc (choose branches) hc in
      elim (Bool-cases (visit defined c acc).1) [
        | inl done ↦ rw (done, visit_all) (rw stop-conds (rw done at round))
        | inr more ↦
            rw (more, visit_all)
              (visit_all-choose branches (visit defined c acc).0 h ∙ (rw more at round))
      ]

  -- For every list of branches, values of the variables and of the other expressions, where no
  -- test that is looked into at compile time has a target: the chain that is generated enters the
  -- branch that the template would enter, with its content, or none where the template enters none.
  pub compute_branches-choose :
      (branches : List (Cond T B))
      → All IsPlain branches
      → choose_info (compute_branches defined branches).conds ≡ choose branches
  unfolding compute_branches
  compute_branches-choose branches h =
      sym (choose_then-none _) ∙ visit_all-choose branches _ h ∙ unfold choose_then in refl
