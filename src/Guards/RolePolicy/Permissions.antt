-- ===== src/Guards/RolePolicy/Permissions.antt =====
-- The permission codes that apps/api/src/rbac/role-policy.ts lets through.
use einvoice.Prelude.{
  ◌≡◌, refl, sym, ◌∙◌, ap, inl, inr, Bool, true, false, ◌||◌, List, [], ◌∷◌, ◌++◌, Text, text_eq,
  text_eq_self, eq_of_text_eq, has, ok, thrown, Bool-cases, all, and_parts, arith, subst,
  ok-injective, ◌↔◌,
}
use einvoice.Guards.RolePolicy.{
  unknown_permission, unique_loop, assert_known_permission_codes, note_code, not_held, refuse_extra,
  assert_no_privilege_escalation,
}

-- No code stands twice.
abbrev pub Distinct : List Text → Type 0
Distinct [] = Unit
Distinct (x ∷ xs) = (has xs x ≡ false) × Distinct xs

has-append : (xs : List Text) (c k : Text) → has (xs ++ c ∷ []) k ≡ (has xs k || text_eq c k)
has-append [] c k = ground arith
has-append (x ∷ xs) c k = ground (arith, has-append xs c k)

text_eq_flip : (x c : Text) → text_eq x c ≡ false → text_eq c x ≡ false
text_eq_flip x c h = elim (Bool-cases (text_eq c x)) [
  | inr e ↦ e
  | inl e ↦ let f = sym h ∙ ap (text_eq x) (eq_of_text_eq c x e) ∙ text_eq_self x in cc
]

or_parts : (a b : Bool) → (a || b) ≡ false → (a ≡ false) × (b ≡ false)
or_parts true b h = cc
or_parts false b h = (refl, h)

or_false : (b : Bool) → b ≡ (b || false)
or_false true = refl
or_false false = refl

or_assoc : (a b c : Bool) → ((a || b) || c) ≡ (a || (b || c))
or_assoc true b c = refl
or_assoc false b c = refl

Distinct-append :
    (xs : List Text) (c : Text) → Distinct xs → has xs c ≡ false → Distinct (xs ++ c ∷ [])
Distinct-append [] c d h = (refl, tt)
Distinct-append (x ∷ xs) c (f, d) h =
    let (g, k) = or_parts (text_eq x c) (has xs c) h in
    (has-append xs c x ∙ rw f (text_eq_flip x c g), Distinct-append xs c d k)

all-append :
    (p : Text → Bool) (xs : List Text) (c : Text)
    → all p xs ≡ true
    → p c ≡ true
    → all p (xs ++ c ∷ []) ≡ true
all-append p [] c a h = rw h refl
all-append p (x ∷ xs) c a h =
    let (b, bs) = and_parts (p x) (all p xs) a in rw b (all-append p xs c bs h)

has-held : (xs : List Text) (c k : Text) → has xs c ≡ true → has xs k ≡ (has xs k || text_eq c k)
has-held xs c k h = elim (Bool-cases (text_eq c k)) [
  | inl e ↦ let f = subst (λ x. has xs x ≡ true) (eq_of_text_eq c k e) h in rw f refl
  | inr e ↦ rw e (ground arith)
]

module _ (catalog : List Text) where
  -- What the loop has collected.
  abbrev Collected : List Text → Type 0
  Collected unique = Distinct unique × (all (has catalog) unique ≡ true)

  note_code-Collected :
      (unique : List Text) (code : Text)
      → Collected unique
      → has catalog code ≡ true
      → Collected (note_code unique code)
  note_code-Collected unique code (d, a) h = elim (Bool-cases (has unique code)) [
    | inl e ↦ rw e (d, a)
    | inr e ↦ rw e (Distinct-append unique code d e, all-append (has catalog) unique code a h)
  ]

  has-note_code :
      (unique : List Text) (code k : Text)
      → has (note_code unique code) k ≡ (has unique k || text_eq code k)
  has-note_code unique code k = elim (Bool-cases (has unique code)) [
    | inl e ↦ rw e (has-held unique code k e)
    | inr e ↦ rw e (has-append unique code k)
  ]

  unique_loop-unknown :
      (unique codes : List Text) (code : Text)
      → has catalog code ≡ false
      → unique_loop catalog unique (code ∷ codes) ≡ thrown (unknown_permission code)
  unfolding unique_loop
  unique_loop-unknown unique codes code e = rw e refl

  unique_loop-known :
      (unique codes : List Text) (code : Text)
      → has catalog code ≡ true
      → unique_loop catalog unique (code ∷ codes)
        ≡ unique_loop catalog (note_code unique code) codes
  unfolding unique_loop
  unique_loop-known unique codes code e = rw e refl

  unique_loop-Collected :
      (unique codes us : List Text)
      → Collected unique
      → unique_loop catalog unique codes ≡ ok us
      → Collected us × ((k : Text) → has us k ≡ (has unique k || has codes k))
  unfolding unique_loop
  unique_loop-Collected unique [] us c h =
      subst (λ x. Collected x × ((k : Text) → has x k ≡ (has unique k || false))) (ok-injective h)
        (c, λ k. or_false (has unique k))
  unique_loop-Collected unique (code ∷ codes) us c h = elim (Bool-cases (has catalog code)) [
    | inr e ↦ let f = sym (unique_loop-unknown unique codes code e) ∙ h in cc
    | inl e ↦
        let (d, m) =
          unique_loop-Collected (note_code unique code) codes us
            (note_code-Collected unique code c e)
            (sym (unique_loop-known unique codes code e) ∙ h) in
        (
          d,
          λ k.
              m k
              ∙ ap (λ b. b || has codes k) (has-note_code unique code k)
              ∙ or_assoc (has unique k) (text_eq code k) (has codes k),
        )
  ]

  -- The codes that the check lets through are in the catalog, none stands twice, and they are
  -- those that were asked for.
  pub assert_known_permission_codes-Distinct :
      (codes us : List Text)
      → assert_known_permission_codes catalog codes ≡ ok us
      → Distinct us × (all (has catalog) us ≡ true) × ((k : Text) → has us k ≡ has codes k)
  unfolding assert_known_permission_codes
  assert_known_permission_codes-Distinct codes us h =
      let ((d, a), m) = unique_loop-Collected [] codes us (tt, refl) h in (d, a, m)

held :
    (actor granted : List Text) → (not_held actor granted ≡ []) ↔ (all (has actor) granted ≡ true)
held actor [] = (λ h. refl, λ h. refl)
held actor (g ∷ gs) = elim (Bool-cases (has actor g)) [
  | inl e ↦ rw e (held actor gs)
  | inr e ↦ rw e (λ h. cc, λ h. cc)
]

refuse_extra-nil : (extra : List Text) → (refuse_extra extra ≡ ok tt) ↔ (extra ≡ [])
refuse_extra-nil [] = (λ h. refl, λ h. refl)
refuse_extra-nil (c ∷ cs) = (λ h. cc, λ h. cc)

-- A grant passes exactly when the actor holds every permission that is granted.
pub assert_no_privilege_escalation_iff :
    (actor granted : List Text)
    → (assert_no_privilege_escalation actor granted ≡ ok tt) ↔ (all (has actor) granted ≡ true)
unfolding assert_no_privilege_escalation
assert_no_privilege_escalation_iff actor granted =
    let (f, g) = refuse_extra-nil (not_held actor granted) in
    let (h, k) = held actor granted in (λ p. h (f p), λ q. g (k q))
