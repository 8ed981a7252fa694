-- ===== src/Generator/Visit/Balance/Leaves.antt =====
-- rinja_derive/src/generator/expr.rs: what has no expression inside is written as closed text, where
-- the names and the literals are closed.
use rinja.Base.{
  ℕ, ◌+◌, Bool, true, false, Option, none, some, List, [], ◌∷◌, ◌++◌, ◌≡◌, refl, if◌then◌else◌,
  Bytes, codes, bytes_eq, ltb, All, Option-cases, Bool-cases, inl, inr,
}
use rinja.Parser.Expr.{StrPrefix, StrLit, CharPrefix, CharLit, c_like}
use rinja.Parser.Keywords.{normalize_identifier}
use rinja.Parser.Keywords.Raw.{normalize_identifier-cases}
use rinja.Generator.Scopes as Scopes
use rinja.Generator.Scopes.{
  Scope, MapChain, LocalMeta, find, get, resolve_or_self, or_self, local_name,
}
use rinja.Generator.Writables.{wrapped, unwrapped}
use rinja.Generator.Visit.{Visit, Input, ◌>>◌, pure, expect, write}
use rinja.Generator.Visit.Leaves.{
  resolve, or_self_name, write_path, visit_path, visit_var, visit_filter_source, visit_bool_lit,
  visit_str_lit, visit_char_lit, visit_num_lit, visit_rust_macro, visit_is_defined, write_prefix,
  write_char_prefix, is_var_defined, same_flag,
}
use rinja.Generator.Visit.Balance.{IsClosed, scan, append-IsClosed}
use rinja.Generator.Visit.Balance.Rules.{
  EntryIsClosed, RefIsClosed, Writes, Emits, bind, ◌before◌, pure_lem, expect_lem, write_lem,
  when_lem,
}

pub normalized :
    (ident : Bytes)
    → IsClosed ident
    → (name : Bytes) × (normalize_identifier ident ≡ some name) × IsClosed name
unfolding scan
normalized ident h = elim (normalize_identifier-cases ident) [
  | inl (_, _, raw) ↦ (
    codes "r#" ++ ident,
    raw,
    append-IsClosed {s = codes "r#"} {t = ident} (λ due. record { scans = refl }) h,
  )
  | inr (same, _) ↦ (ident, same, h)
]

abbrev MetaIsClosed : Option LocalMeta → Type 0
MetaIsClosed none = Unit
MetaIsClosed (some meta) = RefIsClosed meta.refs

find-MetaIsClosed :
    (key : Bytes) (set : Scope) → All EntryIsClosed set → MetaIsClosed (find key set)
unfolding find
find-MetaIsClosed key [] h = tt
find-MetaIsClosed key ((k, v) ∷ set) (own, others) = elim (Bool-cases (bytes_eq key k)) [
  | inl same ↦ rw same own
  | inr other ↦ rw other (find-MetaIsClosed key set others)
]

get-MetaIsClosed :
    (key : Bytes) (scopes : MapChain)
    → All (All EntryIsClosed) scopes
    → MetaIsClosed (get key scopes)
unfolding get
get-MetaIsClosed key [] h = tt
get-MetaIsClosed key (set ∷ scopes) (own, others) = elim (Option-cases (find key set)) [
  | inl absent ↦ rw (absent, get) (get-MetaIsClosed key scopes others)
  | inr (meta, e) ↦ rw (e, get) (rw e at (find-MetaIsClosed key set own))
]

local_name-IsClosed :
    (name : Bytes) (meta : LocalMeta)
    → IsClosed name
    → RefIsClosed meta.refs
    → IsClosed (local_name name meta)
local_name-IsClosed name meta h k = elim (Option-cases (meta.refs)) [
  | inl absent ↦ rw absent h
  | inr (refs, e) ↦ rw e (rw e at k)
]

-- What a variable resolves to.
pub resolved :
    (name : Bytes) (scopes : MapChain)
    → IsClosed name
    → All (All EntryIsClosed) scopes
    → (r : Option Bytes) × (Scopes.resolve name scopes ≡ some r) × RefIsClosed r
unfolding Scopes.resolve
resolved name scopes h k =
    let (normal, e, closed) = normalized name h in
    elim (Option-cases (get normal scopes)) [
      | inl absent ↦ (none, rw (e, absent), tt)
      | inr (meta, found) ↦ (
        some (local_name normal meta),
        rw (e, found),
        local_name-IsClosed normal meta closed (rw found at (get-MetaIsClosed normal scopes k)),
      )
    ]

self_of :
    (name : Bytes) (r : Option Bytes) → IsClosed name → RefIsClosed r → IsClosed (or_self name r)
unfolding scan
self_of name none h k =
    append-IsClosed {s = codes "self."} {t = name} (λ due. record { scans = refl }) h
self_of name (some text) h k = k

pub resolve-Emits :
    {due : List ℕ} (name : Bytes) → IsClosed name → Emits RefIsClosed due due (resolve name)
unfolding resolve
resolve-Emits name h = record {
  runs = λ s ready.
      let (r, e, closed) = resolved name s.locals h ready.closed in
      (expect_lem r e closed).runs s ready;
}

or_self_name-Emits :
    {due : List ℕ} (name : Bytes) → IsClosed name → Emits IsClosed due due (or_self_name name)
unfolding or_self_name resolve_or_self
or_self_name-Emits name h = record {
  runs = λ s ready.
      let (normal, same, closed) = normalized name h in
      let (r, e, ref_closed) = resolved normal s.locals closed ready.closed in
      (expect_lem (or_self normal r) (rw (same, e)) (self_of normal r closed ref_closed)).runs s
        ready;
}

pub normal-Emits :
    {due : List ℕ} (name : Bytes)
    → IsClosed name
    → Emits IsClosed due due (expect (normalize_identifier name))
normal-Emits name h = let (normal, e, closed) = normalized name h in expect_lem normal e closed

write_path-Writes :
    {due : List ℕ} (i : ℕ) (p : List Bytes) → All IsClosed p → Writes due due (write_path i p)
unfolding write_path scan
write_path-Writes i [] h = pure_lem tt tt
write_path-Writes {due} i (part ∷ parts) (own, others) =
    when_lem (ltb 0 i) (write_lem (codes "::") record { scans = refl }) before λ _.
    write_lem part (own due) before λ _. write_path-Writes (i + 1) parts others

-- The result of a visitor of no interest.
pub done :
    {A B : Type 0} {due due' : List ℕ} {m : Visit A} (b : B)
    → Writes due due' m
    → Writes due due' (m >> pure b)
done b h = h before λ _. pure_lem b tt

pub visit_path-Writes :
    {due : List ℕ} (p : List Bytes) → All IsClosed p → Writes due due (visit_path p)
unfolding visit_path
visit_path-Writes p h = done unwrapped (write_path-Writes 0 p h)

pub visit_var-Writes : {due : List ℕ} (s : Bytes) → IsClosed s → Writes due due (visit_var s)
unfolding visit_var
visit_var-Writes {due} s h = elim (Bool-cases (bytes_eq s (codes "self"))) [
  | inl own ↦ rw own (done unwrapped (write_lem s (h due)))
  | inr other ↦ rw other (
      bind (or_self_name-Emits s h) λ name closed.
        bind (normal-Emits name closed) λ normal also. done unwrapped (write_lem normal (also due)))
]

pub visit_filter_source-Writes : {due : List ℕ} → Writes due due visit_filter_source
unfolding visit_filter_source scan
visit_filter_source-Writes = done wrapped (write_lem _ record { scans = refl })

pub visit_bool_lit-Writes : {due : List ℕ} (b : Bool) → Writes due due (visit_bool_lit b)
unfolding visit_bool_lit scan
visit_bool_lit-Writes true = done unwrapped (write_lem _ record { scans = refl })
visit_bool_lit-Writes false = done unwrapped (write_lem _ record { scans = refl })

-- The literals as they are written, without their prefixes.
abbrev pub StrIsClosed : StrLit → Type 0
StrIsClosed s = IsClosed (codes "\"" ++ (codes s.content ++ codes "\""))

abbrev pub CharIsClosed : CharLit → Type 0
CharIsClosed c = IsClosed (codes "'" ++ (codes c.content ++ codes "'"))

write_prefix-Writes :
    {due : List ℕ} (prefix : Option StrPrefix) → Writes due due (write_prefix prefix)
unfolding write_prefix scan
write_prefix-Writes none = pure_lem tt tt
write_prefix-Writes (some StrPrefix.binary) = write_lem _ record { scans = refl }
write_prefix-Writes (some c_like) = write_lem _ record { scans = refl }

write_char_prefix-Writes :
    {due : List ℕ} (prefix : Option CharPrefix) → Writes due due (write_char_prefix prefix)
unfolding write_char_prefix scan
write_char_prefix-Writes none = pure_lem tt tt
write_char_prefix-Writes (some CharPrefix.binary) = write_lem _ record { scans = refl }

pub visit_str_lit-Writes :
    {due : List ℕ} (s : StrLit) → StrIsClosed s → Writes due due (visit_str_lit s)
unfolding visit_str_lit
visit_str_lit-Writes {due} s h =
    write_prefix-Writes s.prefix before λ _. done unwrapped (write_lem _ (h due))

pub visit_char_lit-Writes :
    {due : List ℕ} (c : CharLit) → CharIsClosed c → Writes due due (visit_char_lit c)
unfolding visit_char_lit
visit_char_lit-Writes {due} c h =
    write_char_prefix-Writes c.prefix before λ _. done unwrapped (write_lem _ (h due))

pub visit_num_lit-Writes :
    {due : List ℕ} (s : Bytes) → IsClosed s → Writes due due (visit_num_lit s)
unfolding visit_num_lit
visit_num_lit-Writes {due} s h = done unwrapped (write_lem s (h due))

pub visit_rust_macro-Writes :
    {due : List ℕ} (p : List Bytes) (args : Bytes)
    → All IsClosed p
    → IsClosed args
    → Writes due due (visit_rust_macro p args)
unfolding visit_rust_macro scan
visit_rust_macro-Writes {due} p args h k = visit_path-Writes p h before λ _.
    write_lem (codes "!(") record { scans = refl } before λ _.
    write_lem args (k (b')' ∷ due)) before λ _.
    done unwrapped (write_lem (codes ")") record { scans = refl })

bool_text-Writes :
    {due : List ℕ} (b : Bool) → Writes due due (write (if b then codes "true" else codes "false"))
unfolding scan
bool_text-Writes true = write_lem _ record { scans = refl }
bool_text-Writes false = write_lem _ record { scans = refl }

pub visit_is_defined-Writes :
    {due : List ℕ} (input : Input) (b : Bool) (name : Bytes)
    → Writes due due (visit_is_defined input b name)
unfolding visit_is_defined
visit_is_defined-Writes input b name = record {
  runs = λ s ready.
      (done unwrapped
          (bool_text-Writes (same_flag b (is_var_defined input.fields s.locals name)))).runs
        s ready;
}
