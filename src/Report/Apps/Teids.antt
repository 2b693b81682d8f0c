-- ===== src/Report/Apps/Teids.antt =====
-- The tunnels that a session of src/modules/dpi/report/session_report_gtp.c collects.
use mmt_probe.Base.{
  ℕ, suc, ◌+◌, ◌-◌, ◌≤◌, ◌≡◌, ◌≢◌, refl, ap, ◌∙◌, Bool, true, false, not, ◌||◌, ◌&&◌, List, [], ◌∷◌,
  ◌++◌, some, length, length-append, replicate, ◌==◌, if◌then◌else◌, Bool-cases, inl, inr, arith,
}
use mmt_probe.Report.Apps.{GtpStat, max_teids, new_gtp, put_teid, gtp_update_teid}

abbrev pub member : ℕ → List ℕ → Bool
member a [] = false
member a (x ∷ xs) = x == a || member a xs

abbrev pub NoneZero : List ℕ → Type 0
NoneZero [] = Unit {0}
NoneZero (t ∷ ts) = (t ≢ 0) × NoneZero ts

-- a list filled up with zeros to the size of the array
abbrev pub padded : List ℕ → List ℕ
padded l = l ++ replicate (max_teids - length l) 0

-- A set in the order of its insertions, of a limited size.
abbrev pub add : List ℕ → ℕ → List ℕ
add l t = if member t l || length l == max_teids then l else l ++ t ∷ []

abbrev pub add_all : List ℕ → List ℕ → List ℕ
add_all l [] = l
add_all l (t ∷ ts) = add_all (add l t) ts

-- The array behind some entries that are neither the tunnel nor empty.
put_teid-known :
    (t : ℕ) (l : List ℕ) (k : ℕ)
    → t ≢ 0
    → NoneZero l
    → member t l ≡ true
    → put_teid t (l ++ replicate k 0) ≡ (l ++ replicate k 0, true)
unfolding put_teid
put_teid-known t [] k ne h m = absurd (ground arith)
put_teid-known t (x ∷ l) k ne (nx, h) m = elim (Bool-cases (x == t)) [
  | inl e ↦ rw e refl
  | inr e ↦
      let some_tunnel : (x == 0) ≡ false = ground arith in
      let later : member t l ≡ true = ground arith in
      rw (e, some_tunnel, put_teid-known t l k ne h later) refl
]

put_teid-full :
    (t : ℕ) (l : List ℕ) → NoneZero l → member t l ≡ false → put_teid t (l ++ []) ≡ (l ++ [], false)
unfolding put_teid
put_teid-full t [] h m = refl
put_teid-full t (x ∷ l) (nx, h) m =
    let other_tunnel : (x == t) ≡ false = ground arith in
    let some_tunnel : (x == 0) ≡ false = ground arith in
    let later : member t l ≡ false = ground arith in
    rw (other_tunnel, some_tunnel, put_teid-full t l h later) refl

put_teid-new :
    (t : ℕ) (l : List ℕ) (k : ℕ)
    → t ≢ 0
    → NoneZero l
    → member t l ≡ false
    → put_teid t (l ++ replicate (suc k) 0) ≡ ((l ++ t ∷ []) ++ replicate k 0, true)
unfolding put_teid
put_teid-new t [] k ne h m =
    let other_tunnel : (0 == t) ≡ false = ground arith in rw other_tunnel refl
put_teid-new t (x ∷ l) k ne (nx, h) m =
    let other_tunnel : (x == t) ≡ false = ground arith in
    let some_tunnel : (x == 0) ≡ false = ground arith in
    let later : member t l ≡ false = ground arith in
    rw (other_tunnel, some_tunnel, put_teid-new t l k ne h later) refl

-- one packet: the array, and whether the tunnel was found or had a place
put_teid-add :
    (t : ℕ) (l : List ℕ)
    → t ≢ 0
    → NoneZero l
    → length l ≤ max_teids
    → put_teid t (padded l) ≡ (padded (add l t), member t l || not (length l == max_teids))
put_teid-add t l ne h fits = elim (Bool-cases (member t l)) [
  | inl m ↦ rw (put_teid-known t l (max_teids - length l) ne h m, m) refl
  | inr m ↦ elim (Bool-cases (length l == max_teids)) [
    | inl e ↦
        let z : max_teids - length l ≡ 0 = ground arith in rw (m, e, z, put_teid-full t l h m) refl
    | inr e ↦
        let z : max_teids - length l ≡ suc (max_teids - (length l + 1)) = ground arith in
        let n : length (l ++ t ∷ []) ≡ length l + 1 = omega (arith, length-append l (t ∷ [])) in
        rw (m, e, z, n, put_teid-new t l (max_teids - (length l + 1)) ne h m) refl
  ]
]

NoneZero-append : (l : List ℕ) (t : ℕ) → NoneZero l → t ≢ 0 → NoneZero (l ++ t ∷ [])
NoneZero-append [] t h ne = (ne, tt)
NoneZero-append (x ∷ l) t (nx, h) ne = (nx, NoneZero-append l t h ne)

add-NoneZero :
    (l : List ℕ) (t : ℕ)
    → NoneZero l
    → t ≢ 0
    → length l ≤ max_teids
    → NoneZero (add l t) × (length (add l t) ≤ max_teids)
add-NoneZero l t h ne fits = elim (Bool-cases (member t l || length l == max_teids)) [
  | inl e ↦ rw e (h, fits)
  | inr e ↦ rw e (NoneZero-append l t h ne, ground (arith, length-append l (t ∷ [])))
]

-- the packets of a session, each with its tunnel: the statistics, and for each packet whether the
-- warning is written
abbrev pub collect : List ℕ → GtpStat → GtpStat × List Bool
collect [] g = (g, [])
collect (t ∷ ts) g =
    let (g', warns) = gtp_update_teid (some t) g in
    let (last, later) = collect ts g' in (last, warns ∷ later)

-- where a new tunnel finds the set full
abbrev pub overflows : List ℕ → List ℕ → List Bool
overflows l [] = []
overflows l (t ∷ ts) = (not (member t l) && length l == max_teids) ∷ overflows (add l t) ts

not_or : (a b : Bool) → not (a || not b) ≡ (not a && b)
not_or true b = refl
not_or false true = refl
not_or false false = refl

warned : {a b : Bool} {l m : List Bool} → a ≡ b → l ≡ m → a ∷ l ≡ b ∷ m
warned e f = cc

collect-add_all :
    (ts l : List ℕ) (g : GtpStat)
    → NoneZero ts
    → NoneZero l
    → length l ≤ max_teids
    → g.teids ≡ padded l
    → ((collect ts g).0.teids ≡ padded (add_all l ts)) × ((collect ts g).1 ≡ overflows l ts)
unfolding gtp_update_teid
collect-add_all [] l g h k fits e = (e, refl)
collect-add_all (t ∷ ts) l g (ne, h) k fits e =
    let one : put_teid t g.teids ≡ (padded (add l t), member t l || not (length l == max_teids)) =
      ap (put_teid t) e ∙ put_teid-add t l ne k fits in
    let (k', fits') = add-NoneZero l t k ne fits in
    let rest = collect-add_all ts (add l t) _ h k' fits' (ap (λ r. r.0) one) in
    let warns : not (put_teid t g.teids).1 ≡ (not (member t l) && length l == max_teids) =
      ap (λ r. not r.1) one ∙ not_or (member t l) (length l == max_teids) in
    (rest.0, warned warns rest.1)

-- Whatever tunnels the packets of a session have, none of them 0: the array holds the first six
-- different ones in the order in which they came, each once, and the warning is written exactly for a
-- packet with another one.
pub collect-first_six :
    (ts : List ℕ)
    → NoneZero ts
    → ((collect ts new_gtp).0.teids ≡ padded (add_all [] ts))
      × ((collect ts new_gtp).1 ≡ overflows [] ts)
collect-first_six ts h = collect-add_all ts [] new_gtp h tt (omega arith) refl
