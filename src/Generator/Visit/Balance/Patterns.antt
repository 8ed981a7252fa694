-- ===== src/Generator/Visit/Balance/Patterns.antt =====
-- rinja_derive/src/generator/expr.rs: the code of a pattern is closed.
use rinja.Base.{ℕ, Bool, false, none, some, List, refl, map, codes}
use rinja.Parser.Target.{
  Target, Targets, FieldTargets, name, tuple, array, struct, num_lit, str_lit, char_lit, bool_lit,
  path, or_chain, placeholder, rest, nil, cons, nil_fields, field,
}
use rinja.Generator.Visit.Targets.{visit_target, visit_or, visit_each, visit_fields}
use rinja.Generator.Visit.Balance.{scan}
use rinja.Generator.Visit.Balance.Rules.{Writes, bind, ◌before◌, pure_lem, write_lem}
use rinja.Generator.Visit.Balance.Leaves.{
  normal-Emits, done, visit_path-Writes, visit_str_lit-Writes, visit_char_lit-Writes,
  visit_num_lit-Writes,
}
use rinja.Generator.Visit.Balance.Targets.{
  TextsOfTarget, TextsOfTargets, TextsOfFields, write_separated_path-Writes, borrow-Writes,
  visit_rest-Writes, visit_name-Writes,
}

mutual
  unfolding visit_target visit_or visit_each visit_fields TextsOfTarget TextsOfTargets TextsOfFields
      scan

  target-Writes :
      {due : List ℕ} (initialized first_level : Bool) (t : Target)
      → TextsOfTarget t
      → Writes due due (visit_target initialized first_level t)
  target-Writes initialized first_level placeholder h = write_lem _ record { scans = refl }
  target-Writes initialized first_level (rest none) h = visit_rest-Writes none h
  target-Writes initialized first_level (rest (some s)) h = visit_rest-Writes (some (codes s)) h
  target-Writes initialized first_level (name s) h = visit_name-Writes initialized (codes s) h
  target-Writes initialized first_level (or_chain nil) h = write_lem _ record { scans = refl }
  target-Writes initialized first_level (or_chain (cons t targets)) (own, others) =
      target-Writes initialized first_level t own before λ _.
      or-Writes initialized first_level targets others
  target-Writes initialized first_level (tuple p targets) (h, k) =
      write_separated_path-Writes (map codes p) h before λ _.
      write_lem (codes "(") record { scans = refl } before λ _.
      each-Writes initialized targets k before λ _. write_lem (codes ")") record { scans = refl }
  target-Writes initialized first_level (array p targets) (h, k) =
      write_separated_path-Writes (map codes p) h before λ _.
      write_lem (codes "[") record { scans = refl } before λ _.
      each-Writes initialized targets k before λ _. write_lem (codes "]") record { scans = refl }
  target-Writes initialized first_level (struct p targets) (h, k) =
      write_separated_path-Writes (map codes p) h before λ _.
      write_lem (codes "{") record { scans = refl } before λ _.
      fields-Writes initialized targets k before λ _. write_lem (codes "}") record { scans = refl }
  target-Writes initialized first_level (path p) h =
      visit_path-Writes (map codes p) h before λ _. write_lem _ record { scans = refl }
  target-Writes initialized first_level (str_lit s) h =
      borrow-Writes first_level before λ _. done tt (visit_str_lit-Writes s h)
  target-Writes initialized first_level (num_lit s n) h =
      borrow-Writes first_level before λ _. done tt (visit_num_lit-Writes (codes s) h)
  target-Writes initialized first_level (char_lit c) h =
      borrow-Writes first_level before λ _. done tt (visit_char_lit-Writes c h)
  target-Writes {due} initialized first_level (bool_lit s) h =
      borrow-Writes first_level before λ _. write_lem (codes s) (h due)

  or-Writes :
      {due : List ℕ} (initialized first_level : Bool) (targets : Targets)
      → TextsOfTargets targets
      → Writes due due (visit_or initialized first_level targets)
  or-Writes initialized first_level nil h = pure_lem tt tt
  or-Writes initialized first_level (cons t targets) (own, others) =
      write_lem (codes "|") record { scans = refl } before λ _.
      target-Writes initialized first_level t own before λ _.
      or-Writes initialized first_level targets others

  each-Writes :
      {due : List ℕ} (initialized : Bool) (targets : Targets)
      → TextsOfTargets targets
      → Writes due due (visit_each initialized targets)
  each-Writes initialized nil h = pure_lem tt tt
  each-Writes initialized (cons t targets) (own, others) =
      target-Writes initialized false t own before λ _.
      write_lem (codes ",") record { scans = refl } before λ _.
      each-Writes initialized targets others

  fields-Writes :
      {due : List ℕ} (initialized : Bool) (targets : FieldTargets)
      → TextsOfFields targets
      → Writes due due (visit_fields initialized targets)
  fields-Writes initialized nil_fields h = pure_lem tt tt
  fields-Writes initialized (field s (rest r) targets) (h, own, others) =
      write_lem (codes "..") record { scans = refl } before λ _.
      fields-Writes initialized targets others
  fields-Writes {due} initialized (field s t targets) (h, own, others) =
      bind (normal-Emits (codes s) h) λ normal closed. write_lem normal (closed due) before λ _.
      write_lem (codes ": ") record { scans = refl } before λ _.
      target-Writes initialized false t own before λ _.
      write_lem (codes ",") record { scans = refl } before λ _.
      fields-Writes initialized targets others

-- Whatever the pattern, where the texts that it holds are closed: its code is closed, and nothing
-- panics.
pub visit_target-Writes :
    {due : List ℕ} (initialized first_level : Bool) (t : Target)
    → TextsOfTarget t
    → Writes due due (visit_target initialized first_level t)
visit_target-Writes initialized first_level t h = target-Writes initialized first_level t h
