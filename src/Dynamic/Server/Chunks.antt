-- ===== src/Dynamic/Server/Chunks.antt =====
-- A command that reaches the server of src/modules/dynamic_conf/server.c in pieces.
use mathlib.Core.Option
use mmt_probe.Base.{
  ℕ, ◌≤◌, ◌<◌, ◌≡◌, ◌≢◌, refl, ap, sym, ◌∙◌, true, false, List, [], ◌∷◌, ◌++◌, Option, none, some,
  length, length-append, append_assoc, leb, ◌==◌, ==_iff, Bool-cases, Option-cases, inl, inr, arith,
  map,
}
use mmt_probe.Base.Bytes.{Bytes, Lacks, Lacks-append}
use mmt_probe.Dynamic.Server.{received, until_nul, complete, receive}

not_zero : (c : ℕ) → c ≢ 0 → (c == 0) ≡ false
not_zero c n = ground arith

pub until_nul-Lacks : (s : Bytes) → Lacks 0 s → until_nul s ≡ none
unfolding until_nul
until_nul-Lacks [] h = refl
until_nul-Lacks (c ∷ s) (n, h) = rw (not_zero c n, until_nul-Lacks s h) refl

until_nul-end : (s r : Bytes) → Lacks 0 s → until_nul (s ++ 0 ∷ r) ≡ some (s ++ 0 ∷ [])
unfolding until_nul
until_nul-end [] r h = refl
until_nul-end (c ∷ s) r (n, h) = rw (until_nul-end s r h, not_zero c n) refl

-- A text without 0 is skipped.
until_nul-skip :
    (s r : Bytes) → Lacks 0 s → until_nul (s ++ r) ≡ Option.map (λ t. s ++ t) (until_nul r)
unfolding until_nul
until_nul-skip [] r h = sym (map-same (until_nul r))
  where
    map-same : (o : Option Bytes) → Option.map (λ t. t) o ≡ o
    map-same none = refl
    map-same (some t) = refl
until_nul-skip (c ∷ s) r (n, h) = rw (not_zero c n, until_nul-skip s r h) (map-twice (until_nul r))
  where
    map-twice :
        (o : Option Bytes)
        → Option.map (λ t. c ∷ t) (Option.map (λ t. s ++ t) o) ≡ Option.map (λ t. c ∷ (s ++ t)) o
    map-twice none = refl
    map-twice (some t) = refl

some-eq {ℓ} : {A : Type ℓ} {a b : A} → some a ≡ some b → a ≡ b
some-eq e = cc

map-some :
    (c : ℕ) (o : Option Bytes) (t : Bytes)
    → Option.map (λ u. c ∷ u) o ≡ some t
    → (u : Bytes) × (o ≡ some u) × (c ∷ u ≡ t)
map-some c none t e = absurd (cc)
map-some c (some u) t e = (u, refl, some-eq e)

-- The first part decides, where it has a 0.
until_nul-first : (s r t : Bytes) → until_nul s ≡ some t → until_nul (s ++ r) ≡ some t
unfolding until_nul
until_nul-first [] r t e = absurd (cc)
until_nul-first (c ∷ s) r t e = elim (Bool-cases (c == 0)) [
  | inl z ↦ rw z (rw z at e)
  | inr z ↦
      let (u, a, b) = map-some c (until_nul s) t (rw z at e) in
      rw (z, until_nul-first s r u a) (ap some b)
]

until_nul-none : (s : Bytes) → until_nul s ≡ none → Lacks 0 s
unfolding until_nul
until_nul-none [] e = tt
until_nul-none (c ∷ s) e = elim (Bool-cases (c == 0)) [
  | inl z ↦ absurd (some-none (c ∷ []) (rw z at e))
  | inr z ↦ (
    λ q. true-false (sym ((==_iff c 0).1 q) ∙ z),
    until_nul-none s (map-none c (until_nul s) (rw z at e)),
  )
]
  where
    some-none : (t : Bytes) → some t ≢ none
    some-none t e = cc

    true-false : true ≢ false
    true-false e = cc

    map-none : (c : ℕ) (o : Option Bytes) → Option.map (λ u. c ∷ u) o ≡ none → o ≡ none
    map-none c none e = refl
    map-none c (some u) e = absurd (cc)

abbrev pub concat : List Bytes → Bytes
concat [] = []
concat (d ∷ ds) = d ++ concat ds

-- Every read brings something.
abbrev pub AllSome : List Bytes → Type 0
AllSome [] = Unit {0}
AllSome (d ∷ ds) = (1 ≤ length d) × AllSome ds

at_end :
    (buffer s more cmd extra d : Bytes)
    → Lacks 0 buffer
    → Lacks 0 cmd
    → buffer ++ (s ++ more) ≡ cmd ++ 0 ∷ extra
    → until_nul s ≡ some d
    → buffer ++ d ≡ cmd ++ 0 ∷ []
at_end buffer s more cmd extra d h k e f = some-eq (
    ap (Option.map (λ t. buffer ++ t)) (sym (until_nul-first s more d f))
    ∙ sym (until_nul-skip buffer (s ++ more) h)
    ∙ ap until_nul e
    ∙ until_nul-end cmd extra k)

receive-parts :
    (size : ℕ) (buffer cmd extra : Bytes) (parts : List Bytes)
    → Lacks 0 buffer
    → Lacks 0 cmd
    → AllSome parts
    → buffer ++ concat parts ≡ cmd ++ 0 ∷ extra
    → length (buffer ++ concat parts) < size
    → receive size buffer (map received parts) ≡ complete (cmd ++ 0 ∷ [])
unfolding receive
receive-parts size buffer cmd extra [] h k a e l = absurd (
    none-some (cmd ++ 0 ∷ [])
      (sym (until_nul-skip buffer [] h) ∙ ap until_nul e ∙ until_nul-end cmd extra k))
  where
    none-some : (t : Bytes) → Option.map (λ u. buffer ++ u) (until_nul []) ≢ some t
    none-some t e = unfold until_nul in cc
receive-parts size buffer cmd extra ([] ∷ parts) h k (a, as') e l = absurd (omega arith)
receive-parts size buffer cmd extra ((c ∷ s) ∷ parts) h k (a, as') e l =
    let longer = length-append buffer ((c ∷ s) ++ concat parts) in
    let short : leb size (length (buffer ++ c ∷ s)) ≡ false =
      ground (arith, longer, length-append buffer (c ∷ s), length-append (c ∷ s) (concat parts)) in
    let moved = append_assoc buffer (c ∷ s) (concat parts) in
    elim (Option-cases (until_nul (c ∷ s))) [
      | inl n ↦
          rw (short, n)
            (receive-parts size (buffer ++ c ∷ s) cmd extra parts
              (Lacks-append 0 buffer (c ∷ s) h (until_nul-none (c ∷ s) n)) k as' (moved ∙ e)
              (omega (arith, ap length moved)))
      | inr (d, n) ↦
          rw (short, n) (ap complete (at_end buffer (c ∷ s) (concat parts) cmd extra d h k e n))
    ]

-- A command that ends in '\0' and fits into the buffer is read whole, however it is cut into the
-- pieces that `read` brings, and nothing that comes behind it.
pub receive-chunks :
    (size : ℕ) (cmd extra : Bytes) (parts : List Bytes)
    → Lacks 0 cmd
    → AllSome parts
    → concat parts ≡ cmd ++ 0 ∷ extra
    → length (concat parts) < size
    → receive size [] (map received parts) ≡ complete (cmd ++ 0 ∷ [])
receive-chunks size cmd extra parts k a e l = receive-parts size [] cmd extra parts tt k a e l
