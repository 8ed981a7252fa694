-- ===== src/Generator/Visit/Escape/Displayed.antt =====
-- What a literal displays as at run time, where rinja_derive/src/generator.rs may know it when the
-- template is compiled: `compile_time_escape` finds this text and no other.
use rinja.Base.{
  true, false, Option, none, some, [], ◌∷◌, ◌≡◌, ◌≢◌, refl, ◌⊎◌, inl, inr, arith, All, Bytes, codes,
  contains_byte, ◌==◌, Bool-cases, Option-cases, if◌then◌else◌,
}
use rinja.Parser.Expr.{
  Expr, IntKind, FloatKind, Num, bool_lit, num_lit, str_lit, char_lit, i128, u128, f16, f32, f64,
  f128, int, float,
}
use rinja.Generator.Visit.{Signed, Input}
use rinja.Generator.Visit.Escape.{
  without_underscores, int_type, str_value, char_value, int_value, float_value, num_value,
  str_lit_value, char_lit_value, literal_value,
}

-- The text of a number and its digits, without the underscores.
abbrev pub AreDigits : Bytes → Bytes → Type 0
AreDigits [] t = t ≡ []
AreDigits (c ∷ s) t =
    ((c ≡ b'_') × AreDigits s t) ⊎ ((c ≢ b'_') × (u : Bytes) × (t ≡ c ∷ u) × AreDigits s u)

-- The type of an integer literal: that of its suffix, or else the largest one of its sign.
abbrev pub HasType : Option IntKind → Bytes → IntKind → Type 0
HasType (some suffix) t kind = kind ≡ suffix
HasType none [] kind = kind ≡ u128
HasType none (c ∷ t) kind = ((c ≡ b'-') × (kind ≡ i128)) ⊎ ((c ≢ b'-') × (kind ≡ u128))

-- The type of a literal with a fraction; two types of Rust cannot be displayed yet.
abbrev pub HasFloatType : Option FloatKind → FloatKind → Type 0
HasFloatType none kind = kind ≡ f64
HasFloatType (some f32) kind = kind ≡ f32
HasFloatType (some f64) kind = kind ≡ f64
HasFloatType (some f16) kind = ⊥
HasFloatType (some f128) kind = ⊥

-- The text between quotation marks stands for itself, unless it holds a backslash.
abbrev pub Unescapes : (Bytes → Option Bytes) → Bytes → Bytes → Type 0
Unescapes unescape content v =
    (All (λ c. c ≢ b'\\') content × (v ≡ content))
    ⊎ ((¬ All (λ c. c ≢ b'\\') content) × (unescape content ≡ some v))

module _ (input : Input) where
  abbrev pub NumDisplays : Num → Bytes → Type 0
  NumDisplays (int s suffix) v =
      (t : Bytes) × AreDigits (codes s) t
      × (kind : IntKind) × HasType suffix t kind
      × (n : Signed) × (input.from_str_radix kind t ≡ some n)
      × (v ≡ input.int_to_string n)
  NumDisplays (float s suffix) v =
      (t : Bytes) × AreDigits (codes s) t
      × (kind : FloatKind) × HasFloatType suffix kind
      × (input.float_to_string kind t ≡ some v)

  abbrev pub Displays : {T : Type 0} → Expr T → Bytes → Type 0
  Displays (bool_lit true) v = v ≡ codes "true"
  Displays (bool_lit false) v = v ≡ codes "false"
  Displays (str_lit s) v = (s.prefix ≡ none) × Unescapes input.lit_str (codes s.content) v
  Displays (char_lit c) v = (c.prefix ≡ none) × Unescapes input.lit_char (codes c.content) v
  Displays (num_lit s value) v = NumDisplays value v
  Displays _ v = ⊥

AreDigits-lem : (s : Bytes) → AreDigits s (without_underscores s)
unfolding without_underscores
AreDigits-lem [] = refl
AreDigits-lem (c ∷ s) = elim (Bool-cases (c == b'_')) [
  | inl same ↦ rw same (inl (ground arith, AreDigits-lem s))
  | inr other ↦
      rw other (inr ((λ e. ground (arith, e)), without_underscores s, refl, AreDigits-lem s))
]

digits_unique : (s t : Bytes) → AreDigits s t → t ≡ without_underscores s
unfolding without_underscores
digits_unique [] t h = h
digits_unique (c ∷ s) t (inl (is, h)) = ground (arith, digits_unique s t h)
digits_unique (c ∷ s) t (inr (differs, u, e, h)) = ground (arith, e, digits_unique s u h)

HasType-lem : (suffix : Option IntKind) (t : Bytes) → HasType suffix t (int_type suffix t)
unfolding int_type
HasType-lem (some kind) t = refl
HasType-lem none [] = refl
HasType-lem none (c ∷ t) = ground arith

type_unique :
    (suffix : Option IntKind) (t : Bytes) (kind : IntKind)
    → HasType suffix t kind
    → kind ≡ int_type suffix t
unfolding int_type
type_unique (some k) t kind h = h
type_unique none [] kind h = h
type_unique none (c ∷ t) kind h = ground arith

contains_byte-cases :
    (s : Bytes)
    → ((contains_byte b'\\' s ≡ false) × All (λ c. c ≢ b'\\') s)
      ⊎ ((contains_byte b'\\' s ≡ true) × (¬ All (λ c. c ≢ b'\\') s))
contains_byte-cases [] = inl (refl, tt)
contains_byte-cases (c ∷ s) = ground (arith, contains_byte-cases s)

module _ (unescape : Bytes → Option Bytes) (content : Bytes) where
  unescaped : Option Bytes
  unescaped = if contains_byte b'\\' content then unescape content else some content

  Unescapes-found : (v : Bytes) → Unescapes unescape content v → unescaped ≡ some v
  unfolding unescaped
  Unescapes-found v h = elim (contains_byte-cases content) [
    | inl (plain, all) ↦ elim h [
      | inl (_, is) ↦ rw (plain, is) refl
      | inr (some_byte, _) ↦ absurd (some_byte all)
    ]
    | inr (escapes, fails) ↦ elim h [
      | inl (all, _) ↦ absurd (fails all)
      | inr (_, is) ↦ rw escapes is
    ]
  ]

  found-Unescapes : (v : Bytes) → unescaped ≡ some v → Unescapes unescape content v
  unfolding unescaped
  found-Unescapes v h = elim (contains_byte-cases content) [
    | inl (plain, all) ↦ inl (all, ground arith)
    | inr (escapes, fails) ↦ inr (fails, rw escapes at h)
  ]

module _ (input : Input) where
  float_found :
      (suffix : Option FloatKind) (kind : FloatKind) (t v : Bytes)
      → HasFloatType suffix kind
      → input.float_to_string kind t ≡ some v
      → float_value input suffix t ≡ some v
  unfolding float_value
  float_found none kind t v typed shows = rw typed at shows
  float_found (some f32) kind t v typed shows = rw typed at shows
  float_found (some f64) kind t v typed shows = rw typed at shows
  float_found (some f16) kind t v typed shows = absurd typed
  float_found (some f128) kind t v typed shows = absurd typed

  float_displays :
      (suffix : Option FloatKind) (t v : Bytes)
      → float_value input suffix t ≡ some v
      → (kind : FloatKind) × HasFloatType suffix kind × (input.float_to_string kind t ≡ some v)
  unfolding float_value
  float_displays none t v h = (f64, refl, h)
  float_displays (some f32) t v h = (f32, refl, h)
  float_displays (some f64) t v h = (f64, refl, h)
  float_displays (some f16) t v h = absurd (ground arith)
  float_displays (some f128) t v h = absurd (ground arith)

  num_found : (value : Num) (v : Bytes) → NumDisplays input value v → num_value input value ≡ some v
  unfolding num_value int_value
  num_found (int s suffix) v (t, digits, kind, typed, n, reads, shows) =
      let whole = digits_unique (codes s) t digits in
      let known = rw (type_unique suffix t kind typed, whole) at reads in rw (known, shows) refl
  num_found (float s suffix) v (t, digits, kind, typed, shows) =
      rw (digits_unique (codes s) t digits) at (float_found suffix kind t v typed shows)

  num_displays :
      (value : Num) (v : Bytes) → num_value input value ≡ some v → NumDisplays input value v
  unfolding num_value int_value
  num_displays (int s suffix) v h =
      let t = without_underscores (codes s) in
      let kind = int_type suffix t in
      elim (Option-cases (input.from_str_radix kind t)) [
        | inl fails ↦ absurd (ground arith)
        | inr (n, reads) ↦
            (t, AreDigits-lem (codes s), kind, HasType-lem suffix t, n, reads, ground arith)
      ]
  num_displays (float s suffix) v h =
      let t = without_underscores (codes s) in
      let (kind, typed, shows) = float_displays suffix t v h in
      (t, AreDigits-lem (codes s), kind, typed, shows)

  -- The text is found where the literal displays as it, and nowhere else.
  pub literal_value-found :
      {T : Type 0} (e : Expr T) (v : Bytes) → Displays input e v → literal_value input e ≡ some v
  unfolding literal_value str_lit_value str_value char_lit_value char_value unescaped
  literal_value-found (bool_lit true) v h = rw h refl
  literal_value-found (bool_lit false) v h = rw h refl
  literal_value-found (str_lit s) v (plain, h) =
      rw plain (Unescapes-found input.lit_str (codes s.content) v h)
  literal_value-found (char_lit c) v (plain, h) =
      rw plain (Unescapes-found input.lit_char (codes c.content) v h)
  literal_value-found (num_lit s value) v h = num_found value v h
  literal_value-found e v h = absurd h

  pub literal_value-Displays :
      {T : Type 0} (e : Expr T) (v : Bytes) → literal_value input e ≡ some v → Displays input e v
  unfolding literal_value str_lit_value str_value char_lit_value char_value unescaped
  literal_value-Displays (bool_lit true) v h = ground arith
  literal_value-Displays (bool_lit false) v h = ground arith
  literal_value-Displays (num_lit s value) v h = num_displays value v h
  literal_value-Displays (str_lit s) v h = elim (Option-cases (s.prefix)) [
    | inl plain ↦ (plain, found-Unescapes input.lit_str (codes s.content) v (rw plain at h))
    | inr (prefix, is) ↦ absurd (ground arith)
  ]
  literal_value-Displays (char_lit c) v h = elim (Option-cases (c.prefix)) [
    | inl plain ↦ (plain, found-Unescapes input.lit_char (codes c.content) v (rw plain at h))
    | inr (prefix, is) ↦ absurd (ground arith)
  ]
  literal_value-Displays e v h = absurd (ground arith)
