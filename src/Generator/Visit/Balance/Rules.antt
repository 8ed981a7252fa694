-- ===== src/Generator/Visit/Balance/Rules.antt =====
-- What a visitor of rinja_derive/src/generator/expr.rs does to the code and to the scopes, and how
-- that composes along the sequences of calls.
use rinja.Base.{
  ℕ, Bool, false, Option, none, some, List, [], ◌++◌, ◌≡◌, refl, ◌∙◌, Bytes, All, drop, is_empty,
  append_assoc, append-nil, Outcome, ok, err, running, if◌then◌else◌, true,
}
use rinja.Buffer.{Buffer}
use rinja.Buffer as Buffer
use rinja.Generator.Scopes.{LocalMeta}
use rinja.Generator.Visit.{
  Failure, error, panic, Visiting, Visit, VisitError, ◌>>=◌, pure, refuse, expect, write,
}
use rinja.Generator.Visit.Balance.{Moves, IsClosed, scan, moves}

-- The expression that stands for a local variable, where there is one.
abbrev pub RefIsClosed : Option Bytes → Type 0
RefIsClosed none = Unit
RefIsClosed (some refs) = IsClosed refs

abbrev pub EntryIsClosed : Bytes × LocalMeta → Type 0
EntryIsClosed (key, meta) = RefIsClosed meta.refs

-- There is a scope, code is written, and what stands for variables is closed.
pub record IsReady (s : Visiting) : Type 0 where
  pub writes : s.buf.discard ≡ false
  pub scoped : is_empty s.locals ≡ false
  pub closed : All (All EntryIsClosed) s.locals

-- From one state to another: text was appended, and no scope but the innermost one was changed.
pub record Extends (due due' : List ℕ) (s t : Visiting) : Type 0 where
  pub out : Bytes
  pub appended : t.buf.buf ≡ s.buf.buf ++ out
  pub moved : Moves out due due'
  pub outer : drop 1 t.locals ≡ drop 1 s.locals
  pub ready : IsReady t

-- A template may be refused, but nothing panics, and no loop is cut off.
abbrev pub Leaves :
    {A : Type 0}
    → (A → Type 0)
    → List ℕ
    → List ℕ
    → Visiting
    → Outcome Failure (A × Visiting)
    → Type 0
Leaves P due due' s (ok (a, t)) = P a × Extends due due' s t
Leaves P due due' s (err (error e)) = Unit
Leaves P due due' s (err panic) = ⊥
Leaves P due due' s running = ⊥

pub record Emits {A : Type 0} (P : A → Type 0) (due due' : List ℕ) (m : Visit A) : Type 0 where
  pub runs : (s : Visiting) → IsReady s → Leaves P due due' s (m s)

abbrev pub Anything {ℓ} : {A : Type ℓ} → A → Type 0
Anything a = Unit

abbrev pub Writes : {A : Type 0} → List ℕ → List ℕ → Visit A → Type 0
Writes due due' m = Emits Anything due due' m

pub Extends-refl : (due : List ℕ) (s : Visiting) → IsReady s → Extends due due s s
unfolding scan
Extends-refl due s ready = record {
  out = [];
  appended = rw append-nil;
  moved = record { scans = refl };
  outer = refl;
  ready = ready;
}

pub Extends-trans :
    {due mid end : List ℕ} {s t u : Visiting}
    → Extends due mid s t
    → Extends mid end t u
    → Extends due end s u
Extends-trans p q = record {
  out = p.out ++ q.out;
  appended = q.appended ∙ rw (p.appended, append_assoc);
  moved = moves p.moved q.moved;
  outer = q.outer ∙ p.outer;
  ready = q.ready;
}

pub Leaves_trans :
    {A : Type 0} (P : A → Type 0) {due mid : List ℕ} (end : List ℕ) {s t : Visiting}
    (r : Outcome Failure (A × Visiting))
    → Extends due mid s t
    → Leaves P mid end t r
    → Leaves P due end s r
Leaves_trans P end (ok (a, u)) p (h, q) = (h, Extends-trans p q)
Leaves_trans P end (err (error e)) p h = tt
Leaves_trans P end (err panic) p h = h
Leaves_trans P end running p h = h

bound :
    {A B : Type 0} {P : A → Type 0} {Q : B → Type 0} (due : List ℕ) {mid end : List ℕ}
    (s : Visiting) (f : A → Visit B) (r : Outcome Failure (A × Visiting))
    → Leaves P due mid s r
    → ((a : A) → P a → Emits Q mid end (f a))
    → Leaves Q due end s (elim r [ ok (a, t) ↦ f a t | err e ↦ err e | running ↦ running ])
bound {Q = Q} due {end = end} s f (ok (a, t)) (h, p) k =
    Leaves_trans Q end (f a t) p ((k a h).runs t p.ready)
bound due s f (err (error e)) h k = tt
bound due s f (err panic) h k = h
bound due s f running h k = h

pub bind :
    {A B : Type 0} {P : A → Type 0} {Q : B → Type 0} {due mid end : List ℕ} {m : Visit A}
    {f : A → Visit B}
    → Emits P due mid m
    → ((a : A) → P a → Emits Q mid end (f a))
    → Emits Q due end (m >>= f)
bind {due = due} {m = m} {f = f} p k = record {
  runs = λ s ready. bound due s f (m s) (p.runs s ready) k;
}

-- One call after another whose result is not used, or holds nothing of interest.
infixr 6 ◌before◌
pub ◌before◌ :
    {A B : Type 0} {Q : B → Type 0} {due mid end : List ℕ} {m : Visit A} {f : A → Visit B}
    → Writes due mid m
    → ((a : A) → Emits Q mid end (f a))
    → Emits Q due end (m >>= f)
p before k = bind p (λ a h. k a)

pub pure_lem : {A : Type 0} {P : A → Type 0} {due : List ℕ} (a : A) → P a → Emits P due due (pure a)
pure_lem {due = due} a h = record { runs = λ s ready. (h, Extends-refl due s ready) }

pub refuse_lem :
    {A : Type 0} {P : A → Type 0} {due due' : List ℕ} (e : VisitError)
    → Emits P due due' (refuse {A = A} e)
refuse_lem e = record { runs = λ s ready. tt }

pub expect_lem :
    {A : Type 0} {P : A → Type 0} {due : List ℕ} {o : Option A} (a : A)
    → o ≡ some a
    → P a
    → Emits P due due (expect o)
unfolding expect
expect_lem {due = due} a e h = record { runs = λ s ready. rw e (h, Extends-refl due s ready) }

pub write_lem :
    {due due' : List ℕ} (text : Bytes) → Moves text due due' → Writes due due' (write text)
unfolding write Buffer.write
write_lem text h = record {
  runs = λ s ready. rw ready.writes (
    tt,
    record {
      out = text;
      appended = refl;
      moved = h;
      outer = refl;
      ready = record { writes = refl; scoped = ready.scoped; closed = ready.closed };
    },
  );
}

-- A step that is taken only where a test holds.
pub when_lem :
    {due : List ℕ} (b : Bool) {m : Visit (Unit {0})}
    → Writes due due m
    → Writes due due (if b then m else pure tt)
when_lem true h = h
when_lem false h = pure_lem tt tt

pub choose :
    {A : Type 0} {due due' : List ℕ} (b : Bool) {m n : Visit A}
    → Writes due due' m
    → Writes due due' n
    → Writes due due' (if b then m else n)
choose true h k = h
choose false h k = k
