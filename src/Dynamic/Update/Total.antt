-- ===== src/Dynamic/Update/Total.antt =====
-- `_parse_update_parameters` on any buffer: its loop, and what it does not look at.
use mmt_probe.Base.{
  ℕ, zero, suc, ◌-◌, ◌≡◌, ◌≢◌, ◌≤◌, ◌<◌, refl, List, [], ◌∷◌, Option, none, some, length, get_or,
  drop, arith, set,
}
use mmt_probe.Base.Bytes.{Bytes}
use mmt_probe.Config.{Identity}
use mmt_probe.Dynamic.Update.{
  Parsed, stored, overrun, no_fuel, Name, Round, fails, goes_on, update_loop,
  parse_update_parameters, text_len,
}

-- the rest behind a name is shorter
abbrev NameIn : Bytes → Option Name → Type 0
NameIn m none = Unit {0}
NameIn m (some n) = length n.behind < length m

abbrev ValueIn : Bytes → Option (Bytes × Bytes) → Type 0
ValueIn m none = Unit {0}
ValueIn m (some (v, r)) = length r < length m

-- a round that goes on leaves less memory than it was given, and one that fails has its reason
abbrev RoundIn : ℕ → Round → Type 0
RoundIn n (fails p) = p ≢ no_fuel
RoundIn n (goes_on out m) = length m < n

module _ (identities : List Identity) (input_mode param_size : ℕ) where
  after_round : ℕ → Round → Parsed
  after_round fuel (fails p) = p
  after_round fuel (goes_on out' []) = overrun
  after_round fuel (goes_on out' (zero ∷ m')) = stored out'
  after_round fuel (goes_on out' (suc c ∷ m')) =
      update_loop identities input_mode param_size fuel out' (suc c ∷ m')

get_or_skip :
    (a c d : ℕ) (m : Bytes) (i : ℕ) → 2 ≤ i → get_or (a ∷ c ∷ m) i 0 ≡ get_or (a ∷ d ∷ m) i 0
get_or_skip a c d m zero h = absurd (omega arith)
get_or_skip a c d m (suc zero) h = absurd (omega arith)
get_or_skip a c d m (suc (suc i)) h = refl

set_skip :
    (a c d : ℕ) (m : Bytes) (i : ℕ)
    → 2 ≤ i
    → drop 2 (set (a ∷ c ∷ m) i 0) ≡ drop 2 (set (a ∷ d ∷ m) i 0)
set_skip a c d m zero h = absurd (omega arith)
set_skip a c d m (suc zero) h = absurd (omega arith)
set_skip a c d m (suc (suc i)) h = refl

-- The byte behind the '{' is dropped, whatever it is: a command that writes its first parameter
-- straight behind the '{' loses the first letter of its name.
pub second_byte-ignored :
    (identities : List Identity) (input_mode param_size : ℕ) (c d : ℕ) (m : Bytes) (buffer_len : ℕ)
    → 5 ≤ buffer_len
    → parse_update_parameters identities input_mode param_size (b'{' ∷ c ∷ m) buffer_len
      ≡ parse_update_parameters identities input_mode param_size (b'{' ∷ d ∷ m) buffer_len
unfolding parse_update_parameters
second_byte-ignored identities input_mode param_size c d m buffer_len h =
    let a = get_or_skip b'{' c d m (buffer_len - 1) (omega arith) in
    let len = text_len (b'{' ∷ d ∷ m) buffer_len in
    let n : 4 ≤ len = ground arith in
    rw (
      a,
      get_or_skip b'{' c d m (len - 1) (omega arith),
      get_or_skip b'{' c d m (len - 2) (omega arith),
      set_skip b'{' c d m (len - 1) (omega arith),
    )
