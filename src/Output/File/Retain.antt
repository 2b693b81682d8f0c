-- ===== src/Output/File/Retain.antt =====
-- Which files `_remove_old_sampled_files` of src/modules/output/file/file_output.c deletes.
use mmt_probe.Base.{
  ◌⊎◌, ℕ, zero, suc, ◌+◌, ◌-◌, ◌<◌, ◌≡◌, refl, ap, sym, ◌∙◌, subst, Bool, true, false, List, [],
  ◌∷◌, ◌++◌, Option, none, some, length, take, length-append, take-append, take_all, length-take,
  Bool-cases, inl, inr, leb, ==_iff, if◌then◌else◌, arith, map,
}
use mmt_probe.Base.Bytes.{Bytes, eq_bytes, eq_bytes_iff}
use mmt_probe.Output.File.{
  Action, unlinked, max_path, semaphore_ext, strstr, load_filter, has_length, filter_names,
  with_slash, remove_one, remove_all, remove_old_sampled_files,
}

some-eq {ℓ} : {A : Type ℓ} {a b : A} → some a ≡ some b → a ≡ b
some-eq e = cc

if_some-cases {ℓ} :
    {A : Type ℓ} (b : Bool) (a r : A) (x : Option A)
    → (if b then some a else x) ≡ some r
    → ((b ≡ true) × (a ≡ r)) ⊎ ((b ≡ false) × (x ≡ some r))
if_some-cases true a r x e = inl (refl, some-eq e)
if_some-cases false a r x e = inr (refl, e)

strstr-suffix :
    (s t r : Bytes)
    → strstr s t ≡ some r
    → (front : Bytes) × (s ≡ front ++ r) × (take (length t) r ≡ t)
unfolding strstr
strstr-suffix [] t r e = elim (if_some-cases (eq_bytes [] t) [] r none e) [
  | inl (q, z) ↦ ([], z, subst (λ u. take (length u) r ≡ u) ((eq_bytes_iff [] t).0 q) refl)
  | inr (q, z) ↦ absurd (cc)
]
strstr-suffix (c ∷ s) t r e =
    elim (if_some-cases (eq_bytes (take (length t) (c ∷ s)) t) (c ∷ s) r (strstr s t) e) [
      | inl (q, z) ↦ (
        [],
        z,
        subst (λ u. take (length t) u ≡ t) z ((eq_bytes_iff (take (length t) (c ∷ s)) t).0 q),
      )
      | inr (q, z) ↦ let (front, x, y) = strstr-suffix s t r z in (c ∷ front, ap (◌∷◌ c) x, y)
    ]

has_length-cases :
    (n : ℕ) (o : Option Bytes) → has_length n o ≡ true → (r : Bytes) × (o ≡ some r) × (length r ≡ n)
unfolding has_length
has_length-cases n none h = absurd (cc)
has_length-cases n (some r) h = (r, refl, (==_iff (length r) n).0 h)

-- A name that the filter keeps is the name of a data file, and ".sem" behind it.
pub load_filter-ends :
    (name : Bytes) → load_filter name ≡ true → name ≡ take (length name - 4) name ++ semaphore_ext
unfolding load_filter
load_filter-ends name h =
    let (r, e, n) = has_length-cases 4 (strstr name semaphore_ext) h in
    let (front, x, y) = strstr-suffix name semaphore_ext r e in
    let z : r ≡ semaphore_ext = sym (take_all 4 r (omega arith)) ∙ y in
    let w : name ≡ front ++ semaphore_ext = x ∙ ap (λ u. front ++ u) z in
    let k : length name - 4 ≡ length front =
      omega (arith, ap length w, length-append front semaphore_ext) in
    w ∙ ap (λ u. u ++ semaphore_ext) (sym (rw k (rw w (take-append front semaphore_ext))))

-- The deletion of a data file and its semaphore.
abbrev pub removal : Bytes → Bytes → List Action
removal folder base = unlinked (folder ++ (base ++ semaphore_ext)) ∷ unlinked (folder ++ base) ∷ []

abbrev pub removals : Bytes → List Bytes → List Action
removals folder [] = []
removals folder (base ∷ bases) = removal folder base ++ removals folder bases

abbrev pub with_sem : Bytes → Bytes
with_sem base = base ++ semaphore_ext

-- Every name fits behind the folder's into the array.
abbrev pub AllFit : Bytes → List Bytes → Type 0
AllFit folder [] = Unit {0}
AllFit folder (name ∷ names) = (length name + length folder < max_path) × AllFit folder names

abbrev pub AllKept : List Bytes → Type 0
AllKept [] = Unit {0}
AllKept (name ∷ names) = (load_filter name ≡ true) × AllKept names

filter_names-AllKept : (names : List Bytes) → AllKept (filter_names names)
filter_names-AllKept [] = tt
filter_names-AllKept (name ∷ names) = elim (Bool-cases (load_filter name)) [
  | inl e ↦ rw e (e, filter_names-AllKept names)
  | inr e ↦ rw e (filter_names-AllKept names)
]

remove_all-removals :
    (folder : Bytes) (n : ℕ) (names : List Bytes)
    → AllFit folder names
    → AllKept names
    → (bases : List Bytes) × (map with_sem bases ≡ take n names)
      × (remove_all folder (take n names) ≡ removals folder bases)
unfolding remove_all remove_one
remove_all-removals folder zero names f k = ([], refl, refl)
remove_all-removals folder (suc n) [] f k = ([], refl, refl)
remove_all-removals folder (suc n) (name ∷ names) (f, fs) (k, ks) =
    let (bases, e, r) = remove_all-removals folder n names fs ks in
    let base = take (length name - 4) name in
    let z : name ≡ base ++ semaphore_ext = load_filter-ends name k in
    let small : leb max_path (length name + length folder) ≡ false = ground arith in
    (
      base ∷ bases,
      ap (λ l. with_sem base ∷ l) e ∙ ap (λ u. u ∷ take n names) (sym z),
      rw (small, r)
          (ap (λ u. unlinked (folder ++ u) ∷ unlinked (folder ++ base) ∷ removals folder bases) z),
    )

length-map {ℓ κ} :
    {A : Type ℓ} {B : Type κ} (f : A → B) (xs : List A) → length (map f xs) ≡ length xs
length-map f [] = refl
length-map f (x ∷ xs) = ap suc (length-map f xs)

-- `_remove_old_sampled_files` of a folder that can be scanned, with names that fit behind the
-- folder's, deletes data files with their semaphores: those of the first names that the filter
-- keeps, in order, so many that at most `retains` of the names are left, and no more. It
-- returns their number.
pub remove_old_sampled_files_lem :
    (folder : Bytes) (retains : ℕ) (entries : List Bytes)
    → AllFit (with_slash folder) (filter_names entries)
    → (bases : List Bytes) × (map with_sem bases ≡ take (length bases) (filter_names entries))
      × (remove_old_sampled_files folder retains (some entries)
          ≡ (length bases, removals (with_slash folder) bases))
      × (length bases ≡ length (filter_names entries) - retains)
unfolding remove_old_sampled_files
remove_old_sampled_files_lem folder retains entries f =
    let names = filter_names entries in
    let (bases, e, r) =
      remove_all-removals (with_slash folder) (length names - retains) names f
        (filter_names-AllKept entries) in
    let n : length bases ≡ length names - retains =
      omega (
        arith,
        length-map with_sem bases,
        ap length e,
        length-take (length names - retains) names,
      ) in
    (bases, rw n e, rw (n, r) refl, n)
