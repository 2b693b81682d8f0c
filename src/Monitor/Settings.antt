-- ===== src/Monitor/Settings.antt =====
-- The configuration that an update command leaves: the loop over `params` of `_receive_message`,
-- src/modules/dynamic_conf/dynamic_conf.c, on the overrides of src/configure_override.c.
use mmt_probe.Base.{
  subst, ℕ, ◌≡◌, ◌≢◌, refl, ap, sym, ◌∙◌, Bool, true, false, List, [], ◌∷◌, Option, none, some,
  ◌==◌, ==_iff, Bool-cases, Option-cases, inl, inr, if◌then◌else◌, drop, arith,
}
use mmt_probe.Base.Bytes.{Bytes, c_string}
use mmt_probe.Config.{Identity, identity_from_id}
use mmt_probe.Config.Override.{Conf, Table, override_known, override_by_id, override_by_ident}
use mmt_probe.Config.Override.Outcome.{Fits, HasText}
use mmt_probe.Config.Override.Reading.{
  Value, reading, meaning, or_else, override_by_ident-reading, override_by_ident-other,
  override_by_ident-HasText, override_by_ident-returns, HasField,
}
use mmt_probe.Dynamic.Update.{Param, parse_command_parameters}
use mmt_probe.Monitor.{
  override_all, any_restart, restart_child, receive_message, update, Child, running, need_to_stop,
  need_to_create,
}

-- `params[i].data`
abbrev pub param_text : Bytes → Param → Bytes
param_text buffer p = c_string (drop p.text buffer)

abbrev pub conf_of : Option (Bool × Conf) → Option Conf
conf_of none = none
conf_of (some r) = some r.1

-- A call of `conf_override_element_by_id`; once the process has died, nothing is left to override.
pub override_param : Table → Bytes → Param → Option Conf → Option Conf
override_param t buffer p none = none
override_param t buffer p (some c) = conf_of (override_by_id t p.ident (param_text buffer p) c)

-- what one parameter of a command makes of a value
abbrev pub after_param : Table → Bytes → Param → Identity → Value → Value
after_param t buffer p l v =
    if l.val == p.ident then or_else (meaning t l (param_text buffer p)) v else v

-- What the parameters of a command say of the identity `l`, the last of them prevailing.
pub last_value : Table → Bytes → List Param → Identity → Value → Value
last_value t buffer [] l v = v
last_value t buffer (p ∷ ps) l v = last_value t buffer ps l (after_param t buffer p l v)

-- Every identity stands in the table at its number.
abbrev pub IsTable : Table → Type 0
IsTable t = (i : ℕ) (k : Identity) → identity_from_id t.identities i ≡ some k → k.val ≡ i

abbrev pub IsIn : Table → Identity → Type 0
IsIn t l = identity_from_id t.identities l.val ≡ some l

some-eq {ℓ} : {A : Type ℓ} (a b : A) → some a ≡ some b → a ≡ b
some-eq a b e = cc

none-some {ℓ} : {A : Type ℓ} (a : A) → (none ≢ some a)
none-some a e = cc

true-false : true ≢ false
true-false e = cc

not_equal : (a b : ℕ) → a ≢ b → (a == b) ≡ false
not_equal a b h = ground arith

conf_of-some :
    (o : Option (Bool × Conf)) (d : Conf)
    → conf_of o ≡ some d
    → (changed : Bool) × (o ≡ some (changed, d))
conf_of-some none d e = cc
conf_of-some (some r) d e = (r.0, ap (λ c. some (r.0, c)) (some-eq r.1 d e))

module _ (t : Table) (is_table : IsTable t) (buffer : Bytes) where
  override_none :
      (size : ℕ) (ps : List Param) → override_all (override_param t) size buffer ps none ≡ none
  unfolding override_param
  override_none size [] = refl
  override_none size (p ∷ ps) = override_none size ps

  unknown-reading :
      (p : Param) (c d : Conf) (l : Identity)
      → Fits c
      → IsIn t l
      → identity_from_id t.identities p.ident ≡ none
      → some c ≡ some d
      → (reading t l d ≡ after_param t buffer p l (reading t l c)) × Fits d
  unknown-reading p c d l h at n e =
      let q : c ≡ d = some-eq c d e in
      let ne : l.val ≢ p.ident =
        λ z. none-some l (sym n ∙ ap (identity_from_id t.identities) (sym z) ∙ at) in
      rw (sym q, not_equal l.val p.ident ne) (refl, h)

  known-reading :
      (p : Param) (c d : Conf) (l k : Identity)
      → Fits c
      → IsIn t l
      → identity_from_id t.identities p.ident ≡ some k
      → conf_of (override_by_ident t k (param_text buffer p) c) ≡ some d
      → (reading t l d ≡ after_param t buffer p l (reading t l c)) × Fits d
  known-reading p c d l k h at n e =
      let (changed, r) = conf_of-some (override_by_ident t k (param_text buffer p) c) d e in
      let here = override_by_ident-reading t k (param_text buffer p) c changed d h r in
      let v = is_table p.ident k n in
      elim (Bool-cases (l.val == p.ident)) [
        | inl z ↦
            let k-eq : k ≡ l = some-eq k l (
              sym n ∙ ap (identity_from_id t.identities) (sym ((==_iff l.val p.ident).0 z)) ∙ at) in
            rw z (
              subst
                  (λ m. reading t m d ≡ or_else (meaning t m (param_text buffer p)) (reading t m c))
                  k-eq here.0,
              here.1,
            )
        | inr z ↦
            let ne : l.val ≢ k.val = λ q. true-false (sym ((==_iff l.val p.ident).1 (q ∙ v)) ∙ z) in
            rw z (override_by_ident-other t k (param_text buffer p) c changed d h r l ne, here.1)
      ]

  param-reading :
      (p : Param) (c d : Conf) (l : Identity)
      → Fits c
      → IsIn t l
      → override_param t buffer p (some c) ≡ some d
      → (reading t l d ≡ after_param t buffer p l (reading t l c)) × Fits d
  unfolding override_param override_by_id
  param-reading p c d l h at e = elim (Option-cases (identity_from_id t.identities p.ident)) [
    | inl n ↦
        unknown-reading p c d l h at n
          (sym (ap (λ o. conf_of (override_known t o (param_text buffer p) c)) n) ∙ e)
    | inr (k, n) ↦
        known-reading p c d l k h at n
          (sym (ap (λ o. conf_of (override_known t o (param_text buffer p) c)) n) ∙ e)
  ]

  -- Where the loop of the update command ends, every parameter of the table reads as what the
  -- last parameter of the command with its number says of it, and as before where none does.
  pub override_all-reading :
      (size : ℕ) (ps : List Param) (c d : Conf) (l : Identity)
      → Fits c
      → IsIn t l
      → override_all (override_param t) size buffer ps (some c) ≡ some d
      → reading t l d ≡ last_value t buffer ps l (reading t l c)
  unfolding last_value
  override_all-reading size [] c d l h at e = ap (reading t l) (sym (some-eq c d e))
  override_all-reading size (p ∷ ps) c d l h at e =
      elim (Option-cases (override_param t buffer p (some c))) [
        | inl n ↦ absurd (
            none-some d (
              sym (override_none size ps)
              ∙ ap (override_all (override_param t) size buffer ps) (sym n)
              ∙ e))
        | inr (c', n) ↦
            let (q, h') = param-reading p c c' l h at n in
            override_all-reading size ps c' d l h' at
              (ap (override_all (override_param t) size buffer ps) (sym n) ∙ e)
            ∙ ap (last_value t buffer ps l) q
      ]

  -- No parameter of the list is a string without a text in the configuration, or one in a block that is
  -- missing or in a field that is too narrow.
  abbrev pub AllText : Conf → List Param → Type 0
  AllText c [] = Unit {0}
  AllText c (p ∷ ps) = HasText c p.ident × HasField t p.ident × AllText c ps

  AllText-after :
      (c d : Conf) (ps : List Param)
      → ((j : ℕ) → HasText c j → HasText d j)
      → AllText c ps
      → AllText d ps
  AllText-after c d [] f h = tt
  AllText-after c d (p ∷ ps) f (h, b, hs) = (f p.ident h, b, AllText-after c d ps f hs)

  known-returns :
      (p : Param) (c : Conf) (k : Identity)
      → Fits c
      → HasText c p.ident
      → HasField t p.ident
      → identity_from_id t.identities p.ident ≡ some k
      → (d : Conf) × (conf_of (override_by_ident t k (param_text buffer p) c) ≡ some d)
        × ((j : ℕ) → HasText c j → HasText d j)
        × Fits d
  known-returns p c k h x b n =
      let s = param_text buffer p in
      let (r, e) =
        override_by_ident-returns t k s c (subst (HasText c) (sym (is_table p.ident k n)) x)
          (subst (HasField t) (sym (is_table p.ident k n)) b) in
      (
        r.1,
        ap conf_of e,
        override_by_ident-HasText t k s c r.0 r.1 h e,
        (override_by_ident-reading t k s c r.0 r.1 h e).1,
      )

  param-returns :
      (p : Param) (c : Conf)
      → Fits c
      → HasText c p.ident
      → HasField t p.ident
      → (d : Conf) × (override_param t buffer p (some c) ≡ some d)
        × ((j : ℕ) → HasText c j → HasText d j)
        × Fits d
  unfolding override_param override_by_id
  param-returns p c h x b = elim (Option-cases (identity_from_id t.identities p.ident)) [
    | inl n ↦ (c, ap (λ o. conf_of (override_known t o (param_text buffer p) c)) n, λ j y. y, h)
    | inr (k, n) ↦
        let (d, e, f, w) = known-returns p c k h x b n in
        (d, ap (λ o. conf_of (override_known t o (param_text buffer p) c)) n ∙ e, f, w)
  ]

  override_all-returns :
      (size : ℕ) (ps : List Param) (c : Conf)
      → Fits c
      → AllText c ps
      → (d : Conf) × (override_all (override_param t) size buffer ps (some c) ≡ some d)
  override_all-returns size [] c h x = (c, refl)
  override_all-returns size (p ∷ ps) c h (x, b, xs) =
      let (c', e, f, w) = param-returns p c h x b in
      let (d, r) = override_all-returns size ps c' w (AllText-after c c' ps f xs) in
      (d, ap (override_all (override_param t) size buffer ps) e ∙ r)

  restart_child-conf :
      (size : ℕ) (restarts : Bool) (pid : Child) (c : Option Conf)
      → (restart_child (override_param t) size restarts pid c).conf ≡ c
  unfolding restart_child
  restart_child-conf size true (running pid) c = refl
  restart_child-conf size false (running pid) c = refl
  restart_child-conf size restarts need_to_stop c = refl
  restart_child-conf size restarts need_to_create c = refl

  -- The update command ends, if no string that it overrides lacks a text, and none of its parameters
  -- is in a block that is missing or in a field that is narrower than its type, as that of
  -- output.cache-period is; and then every parameter of the table reads as what the last parameter of
  -- the command with its number says of it, and as before where none says anything.
  pub receive_message-settings :
      (size parameter_length : ℕ) (pid : Child) (c : Conf)
      → Fits c
      → AllText c (parse_command_parameters buffer parameter_length size)
      → (l : Identity) → IsIn t l
      → (d : Conf) × ((receive_message
            (override_param t)
            size
            (update buffer parameter_length)
            pid
            (some c)).conf
          ≡ some d)
        × (reading t l d
            ≡ last_value t buffer
                (parse_command_parameters buffer parameter_length size)
                l
                (reading t l c))
  unfolding receive_message
  receive_message-settings size n pid c h x l at =
      let ps = parse_command_parameters buffer n size in
      let (d, e) = override_all-returns size ps c h x in
      (
        d,
        restart_child-conf size (any_restart ps) pid
              (override_all (override_param t) size buffer ps (some c))
            ∙ e,
        override_all-reading size ps c d l h at e,
      )
