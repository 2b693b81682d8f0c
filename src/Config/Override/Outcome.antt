-- ===== src/Config/Override/Outcome.antt =====
-- What an assignment of `_override_element_by_ident` changes, and what it leaves.
use mmt_probe.Base.{
  sym, ℕ, ◌%◌, ◌^◌, ◌<◌, ◌≤◌, ◌≡◌, ap, ◌∙◌, ◌≢◌, ◌&&◌, refl, Bool, true, false, Option, none, some,
  ◌==◌, arith, ==_iff, Bool-cases, inl, inr,
}
use mmt_probe.Base.Bytes.{Bytes, eq_bytes, eq_bytes_iff}
use mmt_probe.Config.Channels.{Channels, same_channels, same_bit}
use mmt_probe.Config.Override.{
  Conf, assign, override_enum, override_text, override_channels, override_flag, override_half,
  override_word,
}

-- Every field of a half holds 16 bits.
abbrev pub Fits : Conf → Type 0
Fits c = (i : ℕ) → c.halves i < 2 ^ 16

same_bit-eq : (a b : Bool) → same_bit a b ≡ true → a ≡ b
same_bit-eq true true h = refl
same_bit-eq true false h = cc
same_bit-eq false true h = cc
same_bit-eq false false h = refl

and-true : (a b : Bool) → a && b ≡ true → (a ≡ true) × (b ≡ true)
and-true true b h = (refl, h)
and-true false b h = cc

same_channels-eq : (a b : Channels) → same_channels a b ≡ true → a ≡ b
same_channels-eq a b h =
    let (h1, e1) =
      and-true
        (same_bit a.file b.file
          && same_bit a.redis b.redis
          && same_bit a.kafka b.kafka
          && same_bit a.mongodb b.mongodb)
        _ h in
    let (h2, e2) =
      and-true (same_bit a.file b.file && same_bit a.redis b.redis && same_bit a.kafka b.kafka) _
        h1 in
    let (h3, e3) = and-true (same_bit a.file b.file && same_bit a.redis b.redis) _ h2 in
    let (e5, e4) = and-true (same_bit a.file b.file) _ h3 in
    rw
      (
        same_bit-eq a.file b.file e5,
        same_bit-eq a.redis b.redis e4,
        same_bit-eq a.kafka b.kafka e3,
        same_bit-eq a.mongodb b.mongodb e2,
        same_bit-eq a.socket b.socket e1,
      )
      refl

pub assign-same {ℓ} : {A : Type ℓ} (f : ℕ → A) (i : ℕ) (v : A) → assign f i v i ≡ v
assign-same f i v = rw ((==_iff i i).1 refl) refl

half_fits : (n v : ℕ) → n ≡ v → v < 2 ^ 16 → n % 2 ^ 16 ≡ v
half_fits n v e h = omega arith

assign-other {ℓ} : {A : Type ℓ} (f : ℕ → A) (i j : ℕ) (v : A) → j ≢ i → assign f i v j ≡ f j
assign-other f i j v h = rw (not_equal j i h) refl
  where
    not_equal : (a b : ℕ) → a ≢ b → (a == b) ≡ false
    not_equal a b h = ground arith

-- The fields of another parameter stay.
pub record SameAt (j : ℕ) (c d : Conf) : Type 0 where
  pub enums_same : d.enums j ≡ c.enums j
  pub flags_same : d.flags j ≡ c.flags j
  pub halves_same : d.halves j ≡ c.halves j
  pub words_same : d.words j ≡ c.words j
  pub texts_same : d.texts j ≡ c.texts j
  pub channels_same : d.channels j ≡ c.channels j

abbrev pub Elsewhere : ℕ → Conf → Conf → Type 0
Elsewhere i c d = (j : ℕ) → j ≢ i → SameAt j c d

same : (i : ℕ) (c : Conf) → Elsewhere i c c
same i c j h = record {
  enums_same = refl;
  flags_same = refl;
  halves_same = refl;
  words_same = refl;
  texts_same = refl;
  channels_same = refl;
}

-- The field holds the address of a string.
abbrev pub HasText : Conf → ℕ → Type 0
HasText c i = (s : Bytes) × (c.texts i ≡ some s)

-- What an override of the parameter `i` may do: `changed` is what it returns.
pub record Outcome (i : ℕ) (c : Conf) (changed : Bool) (d : Conf) : Type 0 where
  pub elsewhere : Elsewhere i c d
  pub fits : Fits d
  pub texts_kept : (j : ℕ) → HasText c j → HasText d j
  pub untouched : changed ≡ false → d ≡ c

pub untouched-Outcome : (i : ℕ) (c : Conf) → Fits c → Outcome i c false c
untouched-Outcome i c h = record {
  elsewhere = same i c;
  fits = h;
  texts_kept = λ j q. q;
  untouched = λ e. refl;
}

module _ (i : ℕ) (c : Conf) (h : Fits c) where
  pub override_enum-Outcome :
      (o : Option ℕ) → let (changed, d) = override_enum i o c in Outcome i c changed d
  unfolding override_enum
  override_enum-Outcome none = untouched-Outcome i c h
  override_enum-Outcome (some v) = record {
    elsewhere = λ j ne. record {
      enums_same = assign-other c.enums i j v ne;
      flags_same = refl;
      halves_same = refl;
      words_same = refl;
      texts_same = refl;
      channels_same = refl;
    };
    fits = h;
    texts_kept = λ j q. q;
    untouched = λ e. cc;
  }

  pub override_flag-Outcome :
      (v : Bool) → let (changed, d) = override_flag i v c in Outcome i c changed d × (d.flags i ≡ v)
  unfolding override_flag
  override_flag-Outcome v = elim (Bool-cases (same_bit v (c.flags i))) [
    | inl e ↦ rw e (untouched-Outcome i c h, sym (same_bit-eq v (c.flags i) e))
    | inr e ↦ rw e (
      record {
        elsewhere = λ j ne. record {
          enums_same = refl;
          flags_same = assign-other c.flags i j v ne;
          halves_same = refl;
          words_same = refl;
          texts_same = refl;
          channels_same = refl;
        };
        fits = h;
        texts_kept = λ j q. q;
        untouched = λ e. cc;
      },
      assign-same c.flags i v,
    )
  ]

  pub override_channels-Outcome :
      (v : Channels)
      → let (changed, d) = override_channels i v c in Outcome i c changed d × (d.channels i ≡ v)
  unfolding override_channels
  override_channels-Outcome v = elim (Bool-cases (same_channels v (c.channels i))) [
    | inl e ↦ rw e (untouched-Outcome i c h, sym (same_channels-eq v (c.channels i) e))
    | inr e ↦ rw e (
      record {
        elsewhere = λ j ne. record {
          enums_same = refl;
          flags_same = refl;
          halves_same = refl;
          words_same = refl;
          texts_same = refl;
          channels_same = assign-other c.channels i j v ne;
        };
        fits = h;
        texts_kept = λ j q. q;
        untouched = λ e. cc;
      },
      assign-same c.channels i v,
    )
  ]

  pub override_word-Outcome :
      (v : ℕ) → let (changed, d) = override_word i v c in Outcome i c changed d × (d.words i ≡ v)
  unfolding override_word
  override_word-Outcome v = elim (Bool-cases (v == c.words i)) [
    | inl e ↦ rw e (untouched-Outcome i c h, sym ((==_iff v (c.words i)).0 e))
    | inr e ↦ rw e (
      record {
        elsewhere = λ j ne. record {
          enums_same = refl;
          flags_same = refl;
          halves_same = refl;
          words_same = assign-other c.words i j v ne;
          texts_same = refl;
          channels_same = refl;
        };
        fits = h;
        texts_kept = λ j q. q;
        untouched = λ e. cc;
      },
      assign-same c.words i v,
    )
  ]

  pub override_half-Outcome :
      (v : ℕ)
      → let (changed, d) = override_half i v c in Outcome i c changed d × (d.halves i ≡ v % 2 ^ 16)
  unfolding override_half
  override_half-Outcome v = elim (Bool-cases (v == c.halves i)) [
    | inl e ↦ rw e (
      untouched-Outcome i c h,
      sym (half_fits v (c.halves i) ((==_iff v (c.halves i)).0 e) (h i)),
    )
    | inr e ↦ rw e (
      record {
        elsewhere = λ j ne. record {
          enums_same = refl;
          flags_same = refl;
          halves_same = assign-other c.halves i j (v % 2 ^ 16) ne;
          words_same = refl;
          texts_same = refl;
          channels_same = refl;
        };
        fits = assign_fits v;
        texts_kept = λ j q. q;
        untouched = λ e. cc;
      },
      assign-same c.halves i (v % 2 ^ 16),
    )
  ]
    where
      assign_fits : (v j : ℕ) → assign c.halves i (v % 2 ^ 16) j < 2 ^ 16
      assign_fits v j = elim (Bool-cases (j == i)) [
        | inl e ↦ rw e (omega arith)
        | inr e ↦ rw e (h j)
      ]

  pub override_text-Outcome :
      (s old : Bytes)
      → c.texts i ≡ some old
      → (changed : Bool) × (d : Conf) × (override_text i s (some old) c ≡ some (changed, d))
        × Outcome i c changed d
        × (d.texts i ≡ some s)
  unfolding override_text
  override_text-Outcome s old e = elim (Bool-cases (eq_bytes old s)) [
    | inl q ↦ rw q (false, c, refl, untouched-Outcome i c h, e ∙ ap some ((eq_bytes_iff old s).0 q))
    | inr q ↦ rw q (
      true,
      record c { texts = assign c.texts i (some s) },
      refl,
      record {
        elsewhere = λ j ne. record {
          enums_same = refl;
          flags_same = refl;
          halves_same = refl;
          words_same = refl;
          texts_same = assign-other c.texts i j (some s) ne;
          channels_same = refl;
        };
        fits = h;
        texts_kept = assign-HasText;
        untouched = λ e. cc;
      },
      assign-same c.texts i (some s),
    )
  ]
    where
      assign-HasText : (j : ℕ) → HasText c j → (r : Bytes) × (assign c.texts i (some s) j ≡ some r)
      assign-HasText j q = elim (Bool-cases (j == i)) [ inl e ↦ rw e (s, refl) | inr e ↦ rw e q ]

-- A number of more than 16 bits for a field of 16 is reported as a change whatever the field
-- holds, also when it holds that number's low bits already.
pub override_half-again :
    (i v : ℕ) (c : Conf)
    → Fits c
    → 2 ^ 16 ≤ v
    → let (changed, d) = override_half i v c in
      (changed ≡ true)
      × ((override_half i v d).0 ≡ true)
      × ((override_half i v d).1.halves i ≡ d.halves i)
unfolding override_half
override_half-again i v c h big =
    rw
      (
        wide v (c.halves i) big (h i),
        assign-same c.halves i (v % 2 ^ 16),
        wide v (v % 2 ^ 16) big (omega arith),
        assign-same (assign c.halves i (v % 2 ^ 16)) i (v % 2 ^ 16),
      )
      (refl, refl, refl)
  where
    wide : (v w : ℕ) → 2 ^ 16 ≤ v → w < 2 ^ 16 → (v == w) ≡ false
    wide v w a b = ground arith
