-- ===== src/Config/Validate.antt =====
-- Which values `conf_validate_data_value` accepts.
use mmt_probe.Base.{ℕ, ◌≡◌, ◌≢◌, ◌↔◌, ◌⊎◌, inl, inr, refl, [], ◌∷◌, none, arith}
use mmt_probe.Base.Bytes.{Bytes, codes, eq_bytes_iff}
use mmt_probe.Config.{Identity, bool, uint16, uint32, parse_input_mode, check_number, validate}

check_number-none : (s : Bytes) → check_number s ≡ none
unfolding check_number
check_number-none [] = refl
check_number-none (c ∷ s) = ground (arith, check_number-none s)

-- A parameter of a number type is given every value, also one that is no number.
pub validate-number :
    (input_mode : ℕ) (i : Identity) (s : Bytes)
    → i.val ≢ input_mode
    → (i.data_type ≡ uint16) ⊎ (i.data_type ≡ uint32)
    → validate input_mode i s ≡ none
unfolding validate
validate-number input_mode i s ne (inl e) = ground (arith, check_number-none s)
validate-number input_mode i s ne (inr e) = ground (arith, check_number-none s)

-- A Boolean parameter is given exactly "true" and "false".
pub validate-bool :
    (input_mode : ℕ) (i : Identity) (s : Bytes)
    → i.val ≢ input_mode
    → i.data_type ≡ bool
    → (validate input_mode i s ≡ none) ↔ ((s ≡ codes "true") ⊎ (s ≡ codes "false"))
unfolding validate
validate-bool input_mode i s ne e =
    let t = eq_bytes_iff s (codes "true") in
    let f = eq_bytes_iff s (codes "false") in
    ((λ h. ground (arith, t, f)), (λ h. ground (arith, t, f)))

-- `input.mode` is given exactly "ONLINE" and "OFFLINE".
pub validate-mode :
    (input_mode : ℕ) (i : Identity) (s : Bytes)
    → i.val ≡ input_mode
    → (validate input_mode i s ≡ none) ↔ ((s ≡ codes "ONLINE") ⊎ (s ≡ codes "OFFLINE"))
unfolding validate parse_input_mode
validate-mode input_mode i s e =
    let n = eq_bytes_iff s (codes "ONLINE") in
    let o = eq_bytes_iff s (codes "OFFLINE") in
    ((λ h. ground (arith, n, o)), (λ h. ground (arith, n, o)))
