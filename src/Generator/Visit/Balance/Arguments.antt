-- ===== src/Generator/Visit/Balance/Arguments.antt =====
-- rinja_derive/src/generator/expr.rs: the arguments of calls and filters are written as closed text,
-- also where they are escaped when the template is compiled.
use rinja.Base.{
  ℕ, ◌+◌, Bool, true, false, Option, none, some, List, [], ◌∷◌, ◌++◌, ◌≡◌, refl, arith,
  if◌then◌else◌, Bytes, codes, ltb, All, is_empty, append_assoc, String, Bool-cases, inl, inr,
}
use rinja.Buffer as Buffer
use rinja.Buffer.{Buffer, Memchr3Iter, quote, backslash, escaped}
use rinja.Buffer.Escape.{IsMemchr3, escape, string_escape-escape}
use rinja.Parser.Expr.{StrLit}
use rinja.Generator.{lit, expr}
use rinja.Generator.Writables.{wrapped}
use rinja.Generator.Visit.{Input, ◌>>◌, pure, refuse, write, write_escaped_str}
use rinja.Generator.Visit.Arguments.{
  Arg, visit_args_from, visit_args, str_arg, ensure_filter_has_feature_alloc, write_safe,
  write_auto_escaped, write_known, visit_auto_escaped_arg,
}
use rinja.Generator.Visit.Filters.{write_pluralized, pluralize_with, as_literal}
use rinja.Generator.Visit.Balance.{Moves, IsClosed, scan, moves, quoted, code}
use rinja.Generator.Visit.Balance.Rules.{
  Writes, ◌before◌, pure_lem, refuse_lem, write_lem, when_lem,
}
use rinja.Generator.Visit.Balance.Leaves.{StrIsClosed, done, visit_str_lit-Writes}

-- What the template and its configuration name is closed, and memchr does what it documents.
pub record IsInput (input : Input) : Type 0 where
  pub escaper_closed : IsClosed input.escaper
  pub escapers_closed : All (λ (e : List Bytes × Bytes). IsClosed e.1) input.escapers
  pub memchr : IsMemchr3 input.memchr3_iter

abbrev pub OptStrIsClosed : Option StrLit → Type 0
OptStrIsClosed none = Unit
OptStrIsClosed (some s) = StrIsClosed s

module _ (input : Input) where
  pub record ArgWrites (arg : Arg) : Type 0 where
    pub expr_writes : (due : List ℕ) → Writes due due arg.visit_expr
    pub arg_writes : (due : List ℕ) → Writes due due arg.visit_arg
    pub literal_closed : OptStrIsClosed (as_literal input arg.value)

in_literal :
    (s rest : Bytes) (due : List ℕ)
    → scan (escape s ++ rest) (quoted quote due) ≡ scan rest (quoted quote due)
unfolding scan escape escaped
in_literal [] rest due = refl
in_literal (c ∷ s) rest due = ground (arith, in_literal s rest due)

literal-Moves : (s : Bytes) (due : List ℕ) → Moves (quote ∷ (escape s ++ quote ∷ [])) due due
unfolding scan
literal-Moves s due = record { scans = in_literal s (quote ∷ []) due }

quoted_text :
    {memchr3_iter : Memchr3Iter} (memchr : IsMemchr3 memchr3_iter) (text : Bytes) (b : Buffer)
    → b.discard ≡ false
    → Buffer.write_escaped_str memchr3_iter text b
      ≡ some record b {
        buf = b.buf ++ (quote ∷ (escape text ++ quote ∷ []));
        last_was_write_str = false;
      }
unfolding Buffer.write_escaped_str
quoted_text memchr text b h =
    let out = string_escape-escape memchr (b.buf ++ quote ∷ []) text in
    ground (
      arith,
      out,
      append_assoc (b.buf) (quote ∷ []) (escape text),
      append_assoc (b.buf) (quote ∷ escape text) (quote ∷ []),
    )

pub write_escaped_str-Writes :
    {due : List ℕ} {memchr3_iter : Memchr3Iter} (memchr : IsMemchr3 memchr3_iter) (s : Bytes)
    → Writes due due (write_escaped_str memchr3_iter s)
unfolding write_escaped_str
write_escaped_str-Writes {due} memchr text = record {
  runs = λ s ready.
      rw (quoted_text memchr text s.buf ready.writes, write_escaped_str)
        (
          tt,
          record {
            out = quote ∷ (escape text ++ quote ∷ []);
            appended = refl;
            moved = literal-Moves text due;
            outer = refl;
            ready = record { writes = ready.writes; scoped = ready.scoped; closed = ready.closed };
          },
        );
}

module _ (input : Input) (is : IsInput input) where
  args_from-Writes :
      {due : List ℕ} (i : ℕ) (args : List Arg)
      → All (ArgWrites input) args
      → Writes due due (visit_args_from i args)
  unfolding visit_args_from scan
  args_from-Writes i [] h = pure_lem tt tt
  args_from-Writes {due} i (arg ∷ args) (own, others) =
      when_lem (ltb 0 i) (write_lem (codes ",") record { scans = refl }) before λ _.
      own.arg_writes due before λ _. args_from-Writes (i + 1) args others

  pub args-Writes :
      {due : List ℕ} (args : List Arg)
      → All (ArgWrites input) args
      → Writes due due (visit_args args)
  unfolding visit_args
  args-Writes args h = args_from-Writes 0 args h

  pub alloc-Writes :
      {due : List ℕ} (name : String) → Writes due due (ensure_filter_has_feature_alloc input name)
  unfolding ensure_filter_has_feature_alloc
  alloc-Writes name = elim (Bool-cases input.alloc) [
    | inl yes_alloc ↦ rw yes_alloc (pure_lem tt tt)
    | inr no_alloc ↦ rw no_alloc (refuse_lem _)
  ]

  pub when_or_refuse :
      {due : List ℕ} (b : Bool) (e : _)
      → Writes due due (if b then pure tt else refuse {A = Unit {0}} e)
  when_or_refuse true e = pure_lem tt tt
  when_or_refuse false e = refuse_lem e

  pub refuse_or_when :
      {due : List ℕ} (b : Bool) (e : _)
      → Writes due due (if b then refuse {A = Unit {0}} e else pure tt)
  refuse_or_when true e = refuse_lem e
  refuse_or_when false e = pure_lem tt tt

  -- A name in front of an opened bracket, or behind one.
  pub opening :
      {due mid : List ℕ} (before_name name behind : Bytes) (due' : List ℕ)
      → scan before_name (code due) ≡ some (code mid)
      → IsClosed name
      → scan behind (code mid) ≡ some (code due')
      → Writes due due' (write (before_name ++ (name ++ behind)))
  opening {mid = mid} before_name name behind due' p h q =
      write_lem _ (moves record { scans = p } (moves (h mid) record { scans = q }))

  -- The name of the escaper of the template, and the end of a call.
  pub closing :
      {due : List ℕ} (due' : List ℕ) (escaper behind : Bytes)
      → IsClosed escaper
      → scan behind (code due) ≡ some (code due')
      → Writes due due' (write (codes ", " ++ (escaper ++ behind)))
  unfolding scan
  closing due' escaper behind h q = opening (codes ", ") escaper behind due' refl h q

  pub call_end :
      {due : List ℕ} {A : Type 0} (a : A) → Writes (b')' ∷ due) due (write (codes ")?") >> pure a)
  unfolding scan
  call_end a = done a (write_lem (codes ")?") record { scans = refl })

module _ (input : Input) (is : IsInput input) where
  write_safe-Writes : {due : List ℕ} (s : Bytes) → Writes due due (write_safe input s)
  unfolding write_safe scan
  write_safe-Writes s = elim (Bool-cases (is_empty s)) [
    | inl empty ↦ rw empty (write_lem _ record { scans = refl })
    | inr filled ↦ rw filled (
        write_lem (codes "rinja::filters::Safe(") record { scans = refl } before λ _.
        write_escaped_str-Writes is.memchr s before λ _.
        write_lem (codes ")") record { scans = refl })
  ]

  write_auto_escaped-Writes :
      {due : List ℕ} (arg : Arg)
      → ArgWrites input arg
      → Writes due due (write_auto_escaped input arg)
  unfolding write_auto_escaped scan
  write_auto_escaped-Writes {due} arg h =
      write_lem (codes "(&&rinja::filters::AutoEscaper::new(") record { scans = refl } before λ _.
      h.arg_writes (b')' ∷ b')' ∷ due) before λ _.
      closing input is due input.escaper (codes ")).rinja_auto_escape()?") is.escaper_closed refl

  write_known-Writes :
      {due : List ℕ} (arg : Arg) (o : _)
      → ArgWrites input arg
      → Writes due due (write_known input arg o)
  unfolding write_known
  write_known-Writes arg (some (lit s)) h = write_safe-Writes s
  write_known-Writes arg (some (expr e)) h = write_auto_escaped-Writes arg h
  write_known-Writes arg none h = write_auto_escaped-Writes arg h

  pub auto_escaped-Writes :
      {due : List ℕ} (arg : Arg)
      → ArgWrites input arg
      → Writes due due (visit_auto_escaped_arg input arg)
  unfolding visit_auto_escaped_arg
  auto_escaped-Writes arg h = write_known-Writes arg _ h

  write_pluralized-Writes :
      {due : List ℕ} (known : Option Bool) (count sg pl : Arg)
      → ArgWrites input count
      → ArgWrites input sg
      → ArgWrites input pl
      → Writes due due (write_pluralized input known count sg pl)
  unfolding write_pluralized scan
  write_pluralized-Writes (some true) count sg pl h k l = auto_escaped-Writes sg k
  write_pluralized-Writes (some false) count sg pl h k l = auto_escaped-Writes pl l
  write_pluralized-Writes {due} none count sg pl h k l =
      write_lem (codes "rinja::filters::pluralize(") record { scans = refl } before λ _.
      h.arg_writes (b')' ∷ due) before λ _.
      write_lem (codes ",") record { scans = refl } before λ _. auto_escaped-Writes sg k before λ _.
      write_lem (codes ",") record { scans = refl } before λ _.
      auto_escaped-Writes pl l before λ _. write_lem (codes ")?") record { scans = refl }

  pub pluralize_with-Writes :
      {due : List ℕ} (count sg pl : Arg)
      → ArgWrites input count
      → ArgWrites input sg
      → ArgWrites input pl
      → Writes due due (pluralize_with input count sg pl)
  unfolding pluralize_with
  pluralize_with-Writes count sg pl h k l =
      done wrapped (write_pluralized-Writes _ count sg pl h k l)

  -- A text that is an argument.
  pub str_arg-Writes : (s : StrLit) → StrIsClosed s → ArgWrites input (str_arg s)
  unfolding str_arg as_literal
  str_arg-Writes s h = record {
    expr_writes = λ due. visit_str_lit-Writes s h;
    arg_writes = λ due. done tt (visit_str_lit-Writes s h);
    literal_closed = h;
  }
