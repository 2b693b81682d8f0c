-- ===== src/Config/Override/Reading.antt =====
-- What a parameter reads as before and after `override_by_ident`.
use mmt_probe.Base.{
  subst, ℕ, ◌%◌, ◌^◌, ◌≡◌, ap, ◌≢◌, ◌⊎◌, refl, Bool, true, false, Option, none, some, ◌==◌,
  if◌then◌else◌, Bool-cases, inl, inr,
}
use mmt_probe.Base.Bytes.{Bytes, eq_bytes}
use mmt_probe.Config.{
  DataType, no_support, bool, uint16, uint32, char_star, list, Identity, parse_input_mode,
}
use mmt_probe.Config.Channels.{Channels, parse_output_channel}
use mmt_probe.Config.Override.{
  Conf, Table, assign, parse_bool, mode_number, parse_rtt_base, override_enum, override_text,
  override_typed, override_by_ident, override_there, override_missing, override_field, enum_missing,
  typed_missing, Field, null, missing, narrow, there,
}
use mmt_probe.Config.Override.Outcome.{
  HasText, assign-same, Outcome, Fits, SameAt, untouched-Outcome, override_enum-Outcome,
  override_flag-Outcome, override_half-Outcome, override_word-Outcome, override_text-Outcome,
  override_channels-Outcome,
}

-- What a parameter holds.
pub data Value : Type 0 where
  nothing : Value
  enum : ℕ → Value
  flag : Bool → Value
  half : ℕ → Value
  word : ℕ → Value
  text : Option Bytes → Value
  outputs : Channels → Value

typed_reading : Table → DataType → ℕ → Conf → Value
typed_reading t no_support i c = nothing
typed_reading t bool i c = flag (c.flags i)
typed_reading t uint16 i c = half (c.halves i)
typed_reading t uint32 i c = word (c.words i)
typed_reading t char_star i c = text (c.texts i)
typed_reading t list i c = if t.is_output_channel i then outputs (c.channels i) else nothing

pub reading : Table → Identity → Conf → Value
unfolding typed_reading
reading t k c =
    if k.val == 0
    then nothing
    else if k.val == t.input_mode
    then enum (c.enums k.val)
    else if k.val == t.rtt_base
    then enum (c.enums k.val)
    else typed_reading t k.data_type k.val c

enum_meaning : Option ℕ → Option Value
enum_meaning none = none
enum_meaning (some n) = some (enum n)

typed_meaning : Table → DataType → ℕ → Bytes → Option Value
typed_meaning t no_support i s = none
typed_meaning t bool i s = some (flag (parse_bool s))
typed_meaning t uint16 i s = some (half (t.atoi s % 2 ^ 16))
typed_meaning t uint32 i s = some (word (t.atol s))
typed_meaning t char_star i s = some (text (some s))
typed_meaning t list i s =
    if t.is_output_channel i then some (outputs (parse_output_channel (t.parse_list s))) else none

-- What a value string says of a parameter, if anything.
pub meaning_there : Table → Identity → Bytes → Option Value
unfolding typed_meaning enum_meaning
meaning_there t k s =
    if k.val == 0
    then none
    else if k.val == t.input_mode
    then enum_meaning (mode_number (parse_input_mode s))
    else if k.val == t.rtt_base
    then enum_meaning (parse_rtt_base s)
    else typed_meaning t k.data_type k.val s

-- A parameter without a field gets no value.
abbrev pub field_meaning : Table → Field → Identity → Bytes → Option Value
field_meaning t null k s = none
field_meaning t missing k s = none
field_meaning t narrow k s = none
field_meaning t there k s = meaning_there t k s

pub meaning : Table → Identity → Bytes → Option Value
unfolding meaning_there
meaning t k s = field_meaning t (t.field k.val) k s

abbrev pub or_else : Option Value → Value → Value
or_else none v = v
or_else (some w) v = w

abbrev After : ℕ → Conf → (Conf → Value) → Option Value → Option (Bool × Conf) → Type 0
After i c read m none = Unit {0}
After i c read m (some r) = Outcome i c r.0 r.1 × (read r.1 ≡ or_else m (read c))

After-read :
    (i : ℕ) (c : Conf) (read seen : Conf → Value) (m : Option Value) (o : Option (Bool × Conf))
    → ((d : Conf) → seen d ≡ read d)
    → After i c read m o
    → After i c seen m o
After-read i c read seen m none e a = tt
After-read i c read seen m (some r) e (w, q) = (w, rw (e r.1, e c) q)

-- A parameter reads the same where its fields are the same.
reading-SameAt :
    (t : Table) (k : Identity) (c d : Conf) → SameAt k.val c d → reading t k d ≡ reading t k c
unfolding reading
reading-SameAt t k c d e = rw (e.enums_same, typed-SameAt k.data_type) refl
  where
    typed-SameAt : (ty : DataType) → typed_reading t ty k.val d ≡ typed_reading t ty k.val c
    typed-SameAt no_support = unfold typed_reading in refl
    typed-SameAt bool = unfold typed_reading in ap flag e.flags_same
    typed-SameAt uint16 = unfold typed_reading in ap half e.halves_same
    typed-SameAt uint32 = unfold typed_reading in ap word e.words_same
    typed-SameAt char_star = unfold typed_reading in ap text e.texts_same
    typed-SameAt list = unfold typed_reading in rw e.channels_same refl

module _ (t : Table) (s : Bytes) (c : Conf) (h : Fits c) where
  text-After :
      (i : ℕ) (o : Option Bytes)
      → c.texts i ≡ o
      → After i c (typed_reading t char_star i) (some (text (some s))) (override_text i s o c)
  unfolding typed_reading override_text
  text-After i none e = tt
  text-After i (some old) e =
      let (changed, d, r, w, z) = override_text-Outcome i c h s old e in rw r (w, ap text z)

  typed-After :
      (ty : DataType) (i : ℕ)
      → After i c (typed_reading t ty i) (typed_meaning t ty i s) (override_typed t ty i s c)
  unfolding typed_reading typed_meaning override_typed
  typed-After no_support i = (untouched-Outcome i c h, refl)
  typed-After bool i = let (w, z) = override_flag-Outcome i c h (parse_bool s) in (w, ap flag z)
  typed-After uint16 i = let (w, z) = override_half-Outcome i c h (t.atoi s) in (w, ap half z)
  typed-After uint32 i = let (w, z) = override_word-Outcome i c h (t.atol s) in (w, ap word z)
  typed-After char_star i = text-After i (c.texts i) refl
  typed-After list i = elim (Bool-cases (t.is_output_channel i)) [
    | inl e ↦
        let (w, z) = override_channels-Outcome i c h (parse_output_channel (t.parse_list s)) in
        rw e (w, ap outputs z)
    | inr e ↦ rw e (untouched-Outcome i c h, refl)
  ]

  enum-After :
      (i : ℕ) (o : Option ℕ)
      → After i c (λ d. enum (d.enums i)) (enum_meaning o) (some (override_enum i o c))
  unfolding enum_meaning override_enum
  enum-After i none = (override_enum-Outcome i c h none, refl)
  enum-After i (some v) = (override_enum-Outcome i c h (some v), ap enum (assign-same c.enums i v))

  there-After :
      (k : Identity) → After k.val c (reading t k) (meaning_there t k s) (override_there t k s c)
  unfolding reading meaning_there override_there
  there-After k = elim (Bool-cases (k.val == 0)) [
    | inl z ↦ rw z (untouched-Outcome k.val c h, refl)
    | inr z ↦ rw z (elim (Bool-cases (k.val == t.input_mode)) [
      | inl e ↦
          let (w, q) = enum-After k.val (mode_number (parse_input_mode s)) in rw e (w, rw (z, e) q)
      | inr e ↦ rw e (elim (Bool-cases (k.val == t.rtt_base)) [
        | inl r ↦ let (w, q) = enum-After k.val (parse_rtt_base s) in rw r (w, rw (z, e, r) q)
        | inr r ↦ rw r (
            After-read k.val c (typed_reading t k.data_type k.val) (reading t k)
              (typed_meaning t k.data_type k.val s) (override_typed t k.data_type k.val s c)
              (λ d. rw (z, e, r) refl) (typed-After k.data_type k.val))
      ])
    ])
  ]

  enum_missing-After :
      (i : ℕ) (read : Conf → Value) (o : Option ℕ) → After i c read none (enum_missing o c)
  enum_missing-After i read none = (untouched-Outcome i c h, refl)
  enum_missing-After i read (some v) = tt

  typed_missing-After :
      (i : ℕ) (read : Conf → Value) (ty : DataType) → After i c read none (typed_missing t ty i c)
  typed_missing-After i read no_support = (untouched-Outcome i c h, refl)
  typed_missing-After i read bool = tt
  typed_missing-After i read uint16 = tt
  typed_missing-After i read uint32 = tt
  typed_missing-After i read char_star = tt
  typed_missing-After i read list = elim (Bool-cases (t.is_output_channel i)) [
    | inl e ↦ rw e tt
    | inr e ↦ rw e (untouched-Outcome i c h, refl)
  ]

  missing-After : (k : Identity) → After k.val c (reading t k) none (override_missing t k s c)
  unfolding override_missing
  missing-After k = elim (Bool-cases (k.val == t.input_mode)) [
    | inl e ↦ rw e (enum_missing-After k.val (reading t k) (mode_number (parse_input_mode s)))
    | inr e ↦ rw e (elim (Bool-cases (k.val == t.rtt_base)) [
      | inl r ↦ rw r (enum_missing-After k.val (reading t k) (parse_rtt_base s))
      | inr r ↦ rw r (typed_missing-After k.val (reading t k) k.data_type)
    ])
  ]

  field-After :
      (k : Identity) (f : Field)
      → After k.val c (reading t k) (field_meaning t f k s) (override_field t f k s c)
  unfolding override_field
  field-After k null = (untouched-Outcome k.val c h, refl)
  field-After k missing = missing-After k
  field-After k narrow = tt
  field-After k there = there-After k

  by_ident-After :
      (k : Identity) → After k.val c (reading t k) (meaning t k s) (override_by_ident t k s c)
  unfolding meaning override_by_ident
  by_ident-After k = field-After k (t.field k.val)

module _ (t : Table) (k : Identity) (s : Bytes) (c : Conf) (changed : Bool) (d : Conf) (h : Fits c)
    (e : override_by_ident t k s c ≡ some (changed, d)) where
  override_by_ident-Outcome :
      Outcome k.val c changed d × (reading t k d ≡ or_else (meaning t k s) (reading t k c))
  override_by_ident-Outcome =
      subst (After k.val c (reading t k) (meaning t k s)) e (by_ident-After t s c h k)

  -- Where `_override_element_by_ident` returns, the parameter reads as what the value says of it,
  -- or as before where it says nothing, and the fields of 16 bits still hold 16 bits.
  pub override_by_ident-reading : (reading t k d ≡ or_else (meaning t k s) (reading t k c)) × Fits d
  override_by_ident-reading = let (w, q) = override_by_ident-Outcome in (q, w.fits)

  -- A parameter of another number reads as before.
  pub override_by_ident-other : (l : Identity) → l.val ≢ k.val → reading t l d ≡ reading t l c
  override_by_ident-other l ne =
      reading-SameAt t l c d (override_by_ident-Outcome.0.elsewhere l.val ne)

  -- If it returns false, the configuration is the one before.
  pub override_by_ident-false : changed ≡ false → d ≡ c
  override_by_ident-false = override_by_ident-Outcome.0.untouched

  pub override_by_ident-HasText : (j : ℕ) → HasText c j → HasText d j
  override_by_ident-HasText = override_by_ident-Outcome.0.texts_kept

override_text-returns :
    (i : ℕ) (s : Bytes) (c : Conf)
    → HasText c i
    → (r : Bool × Conf) × (override_text i s (c.texts i) c ≡ some r)
unfolding override_text
override_text-returns i s c (old, e) = rw e (elim (Bool-cases (eq_bytes old s)) [
  | inl q ↦ rw q ((false, c), refl)
  | inr q ↦ rw q ((true, record c { texts = assign c.texts i (some s) }), refl)
])

override_typed-returns :
    (t : Table) (ty : DataType) (i : ℕ) (s : Bytes) (c : Conf)
    → HasText c i
    → (r : Bool × Conf) × (override_typed t ty i s c ≡ some r)
unfolding override_typed
override_typed-returns t no_support i s c h = (_, refl)
override_typed-returns t bool i s c h = (_, refl)
override_typed-returns t uint16 i s c h = (_, refl)
override_typed-returns t uint32 i s c h = (_, refl)
override_typed-returns t list i s c h = (_, refl)
override_typed-returns t char_star i s c h = override_text-returns i s c h

there-returns :
    (t : Table) (k : Identity) (s : Bytes) (c : Conf)
    → HasText c k.val
    → (r : Bool × Conf) × (override_there t k s c ≡ some r)
unfolding override_there
there-returns t k s c h = elim (Bool-cases (k.val == 0)) [
  | inl e ↦ rw e (_, refl)
  | inr e ↦ rw e (elim (Bool-cases (k.val == t.input_mode)) [
    | inl e ↦ rw e (_, refl)
    | inr e ↦ rw e (elim (Bool-cases (k.val == t.rtt_base)) [
      | inl e ↦ rw e (_, refl)
      | inr e ↦ rw e (override_typed-returns t k.data_type k.val s c h)
    ])
  ])
]

-- The parameter has its field, or none at all: it is in no block that is missing, and the field is as
-- wide as the type.
abbrev pub HasField : Table → ℕ → Type 0
HasField t i = (t.field i ≡ there) ⊎ (t.field i ≡ null)

pub override_by_ident-returns :
    (t : Table) (k : Identity) (s : Bytes) (c : Conf)
    → HasText c k.val
    → HasField t k.val
    → (r : Bool × Conf) × (override_by_ident t k s c ≡ some r)
unfolding override_by_ident override_field
override_by_ident-returns t k s c h (inl e) = rw e (there-returns t k s c h)
override_by_ident-returns t k s c h (inr e) = rw e ((false, c), refl)
