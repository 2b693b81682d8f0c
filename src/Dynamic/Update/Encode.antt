-- ===== src/Dynamic/Update/Encode.antt =====
-- `_parse_update_parameters` on a well-formed command, and the rounds of its loop.
use mmt_probe.Base.{
  ℕ, zero, suc, ◌+◌, ◌≡◌, ◌≢◌, ◌≤◌, ◌<◌, refl, sym, ap, ◌∙◌, true, false, List, [], ◌∷◌, ◌++◌, none,
  some, length, length-append, le→ltb, arith, append_assoc, append-nil,
}
use mmt_probe.Base.Bytes.{Bytes, Lacks}
use mmt_probe.Config.{Identity, identity_from_string, validate}
use mmt_probe.Dynamic.Update.{
  entry_bytes, stored, scan_name, scan_value, is_unsupported, goes_on, round_value, round_ident,
  round_name, update_loop,
}
use mmt_probe.Dynamic.Update.Decode.{Setting, encode}

-- One line of a command: a parameter and the text of its value.
pub record Line : Type 0 where
  pub identity : Identity
  pub value : Bytes

-- the text of the lines, with what follows it
abbrev pub text : List Line → Bytes → Bytes
text [] rest = rest
text (l ∷ ls) rest = l.identity.ident ++ (b'=' ∷ (l.value ++ (b'\n' ∷ text ls rest)))

abbrev pub settings : List Line → List Setting
settings [] = []
settings (l ∷ ls) = record { val = l.identity.val; value = l.value } ∷ settings ls

scan_name-append :
    (s m : Bytes)
    → Lacks b'=' s
    → Lacks b'\n' s
    → scan_name (s ++ b'=' ∷ m) ≡ some (record { name = s; is_equals = true; behind = m })
unfolding scan_name
scan_name-append [] m h k = refl
scan_name-append (c ∷ s) m h k = ground (arith, scan_name-append s m h.1 k.1)

scan_value-append : (s m : Bytes) → Lacks b'\n' s → scan_value (s ++ b'\n' ∷ m) ≡ some (s, m)
unfolding scan_value
scan_value-append [] m k = refl
scan_value-append (c ∷ s) m k = ground (arith, scan_value-append s m k.1)

module _ (identities : List Identity) (input_mode param_size : ℕ) where
  -- The line is one that the code is to accept.
  pub record IsGood (l : Line) : Type 0 where
    pub found : identity_from_string identities l.identity.ident ≡ some l.identity
    pub supported : is_unsupported l.identity.data_type ≡ false
    pub no_equals : Lacks b'=' l.identity.ident
    pub name_line : Lacks b'\n' l.identity.ident
    pub name_string : Lacks 0 l.identity.ident
    pub value_line : Lacks b'\n' l.value
    pub has_value : l.value ≢ []
    pub accepted : validate input_mode l.identity l.value ≡ none

  abbrev pub AllGood : List Line → Type 0
  AllGood [] = Unit {0}
  AllGood (l ∷ ls) = IsGood l × AllGood ls

  round_value-some :
      (out : Bytes) (i : Identity) (s m : Bytes)
      → s ≢ []
      → validate input_mode i s ≡ none
      → length out + length (entry_bytes i.val s) ≤ param_size
      → round_value identities input_mode param_size out i (some (s, m))
        ≡ goes_on (out ++ entry_bytes i.val s) m
  unfolding round_value
  round_value-some out i [] m ne v h = absurd (ne refl)
  round_value-some out i (c ∷ s) m ne v h = rw (
    v,
    le→ltb param_size (length out + 2 + 2 + (length (c ∷ s) + 1))
        (omega (arith, length-append s (0 ∷ []))),
  )

  round-line :
      (out : Bytes) (l : Line) (m : Bytes)
      → IsGood l
      → length out + length (entry_bytes l.identity.val l.value) ≤ param_size
      → round_name identities input_mode param_size out
          (scan_name (l.identity.ident ++ (b'=' ∷ (l.value ++ (b'\n' ∷ m)))))
        ≡ goes_on (out ++ entry_bytes l.identity.val l.value) m
  unfolding round_name round_ident
  round-line out l m g h =
      rw
        (
          scan_name-append l.identity.ident (l.value ++ b'\n' ∷ m) g.no_equals g.name_line,
          g.found,
          g.supported,
          scan_value-append l.value m g.value_line,
        )
        (round_value-some out l.identity l.value m g.has_value g.accepted h)

  update_loop-last :
      (fuel : ℕ) (out out' m m' : Bytes)
      → round_name identities input_mode param_size out (scan_name m) ≡ goes_on out' (0 ∷ m')
      → update_loop identities input_mode param_size (suc fuel) out m ≡ stored out'
  unfolding update_loop
  update_loop-last fuel out out' m m' e = rw (e, update_loop)

  update_loop-next :
      (fuel : ℕ) (out out' m : Bytes) (c : ℕ) (m' : Bytes)
      → round_name identities input_mode param_size out (scan_name m) ≡ goes_on out' (c ∷ m')
      → c ≢ 0
      → update_loop identities input_mode param_size (suc fuel) out m
        ≡ update_loop identities input_mode param_size fuel out' (c ∷ m')
  unfolding update_loop
  update_loop-next fuel out out' m zero m' e ne = absurd (ne refl)
  update_loop-next fuel out out' m (suc c) m' e ne = rw (e, update_loop)

  ident-head :
      (s m : Bytes) → Lacks 0 s → (c : ℕ) × (m' : Bytes) × (c ≢ 0) × (s ++ b'=' ∷ m ≡ c ∷ m')
  ident-head [] m h = (b'=', m, omega arith, refl)
  ident-head (c ∷ s) m h = (c, s ++ b'=' ∷ m, h.0, refl)

  -- The loop stores the settings of all lines, in order, if they fit.
  pub update_loop-text :
      (l : Line) (ls : List Line) (fuel : ℕ) (out mem : Bytes)
      → AllGood (l ∷ ls)
      → length ls < fuel
      → length out + length (encode (settings (l ∷ ls))) ≤ param_size
      → update_loop identities input_mode param_size fuel out (text (l ∷ ls) (0 ∷ mem))
        ≡ stored (out ++ encode (settings (l ∷ ls)))
  update_loop-text l ls zero out mem g k h = absurd (omega arith)
  update_loop-text l [] (suc fuel) out mem g k h =
      let entry = entry_bytes l.identity.val l.value in
      rw append-nil (
        update_loop-last fuel out _ _ mem
          (round-line out l (0 ∷ mem) g.0 (omega (arith, length-append entry []))))
  update_loop-text l (x ∷ xs) (suc fuel) out mem g k h =
      let entry = entry_bytes l.identity.val l.value in
      let rest = encode (settings (x ∷ xs)) in
      let n : length (entry ++ rest) ≡ length entry + length rest = length-append entry rest in
      let (c, m', ne, e) = ident-head x.identity.ident _ g.1.0.name_string in
      update_loop-next fuel out (out ++ entry) _ c m'
        (round-line out l _ g.0 (omega arith) ∙ ap (goes_on (out ++ entry)) e) ne
      ∙ ap (update_loop identities input_mode param_size fuel (out ++ entry)) (sym e)
      ∙ update_loop-text x xs fuel (out ++ entry) mem g.1 (omega arith)
          (omega (arith, length-append out entry))
      ∙ ap stored (append_assoc out entry rest)

pub text-append : (ls : List Line) (rest : Bytes) → text ls rest ≡ text ls [] ++ rest
text-append [] rest = refl
text-append (l ∷ ls) rest = rw (text-append ls rest) (simp append_assoc)
