-- ===== src/InternalId/Schemes.antt =====
-- The ids of a scheme that packages/eta-core/src/internal-id.ts accepts.
use einvoice.Prelude.{
  ap, ℕ, zero, suc, ◌+◌, ◌-◌, ◌^◌, ◌<◌, ◌≤◌, ◌≡◌, refl, ◌∙◌, Bool, true, false, not, ◌&&◌, ◌||◌,
  some, List, [], ◌∷◌, ◌++◌, pos, pos_part, Text, length, length-append, all-append,
  length-replicate, all, replicate, ltb, trim, trim_end, is_space, arith, All, and_parts,
}
use einvoice.Prelude.Numeral.{is_digit, digits, digits-All, length-digits}
use einvoice.InternalId.{
  is_alphanumeric, is_id_char, utf16_length, matches_internal_id, is_empty,
  is_valid_eta_internal_id, pad_start, clamp_width, format_internal_id, InternalIdSchemeInput,
  InternalIdSchemeIssue, issue_if, unless_any, pad_width_invalid, starting_number_invalid,
  prefix_too_long, prefix_charset, prefix_start, is_negative, starts_alphanumeric, field_issues,
  sample_issues, validate_internal_id_scheme,
}

issue_if-nil :
    (b : Bool) (i : InternalIdSchemeIssue) (r : List InternalIdSchemeIssue)
    → issue_if b i r ≡ []
    → (b ≡ false) × (r ≡ [])
issue_if-nil true i r h = cc
issue_if-nil false i r h = (refl, h)

id_char-not_space : (c : ℕ) → is_id_char c ≡ true → is_space c ≡ false
id_char-not_space c h = ground arith

trim_end-ids : (s : Text) → all is_id_char s ≡ true → trim_end s ≡ s
trim_end-ids [] h = refl
trim_end-ids (c ∷ s) h =
    let (p, q) = and_parts (is_id_char c) (all is_id_char s) h in
    rw (id_char-not_space c p) (ap (λ t. c ∷ t) (trim_end-ids s q))

trim-ids : (s : Text) → all is_id_char s ≡ true → trim s ≡ s
unfolding trim
trim-ids [] h = refl
trim-ids (c ∷ s) h =
    rw (id_char-not_space c ((and_parts (is_id_char c) (all is_id_char s) h).0))
      (trim_end-ids (c ∷ s) h)

utf16_length-ids : (s : Text) → all is_id_char s ≡ true → utf16_length s ≡ length s
unfolding utf16_length
utf16_length-ids [] h = refl
utf16_length-ids (c ∷ s) h =
    let (p, q) = and_parts (is_id_char c) (all is_id_char s) h in
    ground (arith, utf16_length-ids s q)

id_char-of-alphanumeric : (c : ℕ) → is_alphanumeric c ≡ true → is_id_char c ≡ true
id_char-of-alphanumeric c h = rw h refl

-- A text of id characters that starts with a letter or a digit and is short enough.
valid-text :
    (s : Text)
    → starts_alphanumeric s ≡ true
    → all is_id_char s ≡ true
    → length s ≤ 50
    → is_valid_eta_internal_id (some s) ≡ true
unfolding is_valid_eta_internal_id matches_internal_id
valid-text [] h a l = cc
valid-text (c ∷ s) h a l =
    let (p, q) = and_parts (is_id_char c) (all is_id_char s) a in
    rw (trim-ids (c ∷ s) a) (rw (utf16_length-ids (c ∷ s) a) (ground (arith, h, q)))

all_digits : (s : Text) → All (λ c. is_digit c ≡ true) s → all is_digit s ≡ true
all_digits [] h = refl
all_digits (c ∷ s) (p, h) = rw p (all_digits s h)

all_digits-replicate : (k : ℕ) → all is_digit (replicate k b'0') ≡ true
all_digits-replicate zero = refl
all_digits-replicate (suc k) = all_digits-replicate k

ids-of-digits : (s : Text) → all is_digit s ≡ true → all is_id_char s ≡ true
ids-of-digits [] h = refl
ids-of-digits (c ∷ s) h =
    let (p, q) = and_parts (is_digit c) (all is_digit s) h in ground (arith, ids-of-digits s q)

starts-of-digits : (s : Text) → all is_digit s ≡ true → 0 < length s → starts_alphanumeric s ≡ true
starts-of-digits [] h l = absurd (omega arith)
starts-of-digits (c ∷ s) h l =
    let (p, q) = and_parts (is_digit c) (all is_digit s) h in ground arith

starts-append :
    (p s : Text)
    → (not (is_empty p) && not (starts_alphanumeric p)) ≡ false
    → starts_alphanumeric s ≡ true
    → starts_alphanumeric (p ++ s) ≡ true
starts-append [] s h k = k
starts-append (c ∷ p) s h k = ground arith

body_digits : (w n : ℕ) → all is_digit (pad_start w (digits n)) ≡ true
body_digits w n =
    all-append is_digit (replicate (w - length (digits n)) b'0') (digits n)
    ∙ rw (all_digits-replicate (w - length (digits n))) (all_digits (digits n) (digits-All n))

length-pad_start : (w : ℕ) (s : Text) → length (pad_start w s) ≡ w - length s + length s
length-pad_start w s =
    length-append (replicate (w - length s) b'0') s
    ∙ ap (λ k. k + length s) (length-replicate {A = ℕ} (w - length s) b'0')

clamp_width-bounds : (w : ℕ) → (1 ≤ clamp_width w) × (clamp_width w ≤ 12)
clamp_width-bounds w = (ground arith, ground arith)

-- The padded number is as long as the width or the number asks for.
length-body :
    (w n : ℕ)
    → n < 10 ^ 16
    → (1 ≤ length (pad_start (clamp_width w) (digits n)))
      × (length (pad_start (clamp_width w) (digits n)) ≤ 16)
length-body w n h =
    let e = length-pad_start (clamp_width w) (digits n) in
    let b = clamp_width-bounds w in
    let g = length-digits 15 n h in (omega (arith, e, b.0, b.1, g), omega (arith, e, b.0, b.1, g))

ltb-le : (a b : ℕ) → ltb a b ≡ false → b ≤ a
ltb-le a b h = ground arith

-- What the checks of the fields leave.
record Accepted (input : InternalIdSchemeInput) : Type 0 where
  short : utf16_length input.prefix ≤ 30
  ids : all is_id_char input.prefix ≡ true
  starts : (not (is_empty input.prefix) && not (starts_alphanumeric input.prefix)) ≡ false

ids-of-flag :
    (p : Text) → (not (is_empty p) && not (all is_id_char p)) ≡ false → all is_id_char p ≡ true
ids-of-flag [] h = refl
ids-of-flag (c ∷ p) h = ground arith

-- Five checks that leave no issue.
flags-nil :
    (a b c d e : Bool)
    → issue_if a pad_width_invalid (
        issue_if b starting_number_invalid
          (issue_if c prefix_too_long (issue_if d prefix_charset (issue_if e prefix_start []))))
      ≡ []
    → (c ≡ false) × (d ≡ false) × (e ≡ false)
flags-nil a b c d e h =
    let r4 = issue_if e prefix_start [] in
    let r3 = issue_if d prefix_charset r4 in
    let r2 = issue_if c prefix_too_long r3 in
    let h1 = (issue_if-nil a pad_width_invalid (issue_if b starting_number_invalid r2) h).1 in
    let h2 = (issue_if-nil b starting_number_invalid r2 h1).1 in
    let (fc, h3) = issue_if-nil c prefix_too_long r3 h2 in
    let (fd, h4) = issue_if-nil d prefix_charset r4 h3 in
    (fc, fd, (issue_if-nil e prefix_start [] h4).0)

fields-Accepted : (input : InternalIdSchemeInput) → field_issues input ≡ [] → Accepted input
unfolding field_issues
fields-Accepted input h =
    let p = input.prefix in
    let (c, d, e) =
      flags-nil (ltb (pos_part input.pad_width) 1 || ltb 12 (pos_part input.pad_width))
        (is_negative input.starting_number) (ltb 30 (utf16_length p))
        (not (is_empty p) && not (all is_id_char p))
        (not (is_empty p) && not (starts_alphanumeric p)) h in
    record { short = ltb-le 30 (utf16_length p) c; ids = ids-of-flag p d; starts = e }

unless_any-nil : (f s : List InternalIdSchemeIssue) → unless_any f s ≡ [] → f ≡ []
unless_any-nil [] s h = refl
unless_any-nil (i ∷ is) s h = cc

no_field_issues :
    (input : InternalIdSchemeInput)
    → validate_internal_id_scheme input ≡ []
    → field_issues input ≡ []
unfolding validate_internal_id_scheme
no_field_issues input h = unless_any-nil (field_issues input) (sample_issues input) h

-- A numbering scheme with no issue formats every number of at most 16 digits to an id that ETA
-- takes, whatever its padding.
pub format_internal_id-valid :
    (input : InternalIdSchemeInput) (n : ℕ)
    → validate_internal_id_scheme input ≡ []
    → n < 10 ^ 16
    → is_valid_eta_internal_id (some (format_internal_id input.prefix (pos n) input.pad_width))
      ≡ true
unfolding format_internal_id
format_internal_id-valid input n h small =
    let a = fields-Accepted input (no_field_issues input h) in
    let body = pad_start (clamp_width (pos_part input.pad_width)) (digits n) in
    let (l, u) = length-body (pos_part input.pad_width) n small in
    let ds = body_digits (clamp_width (pos_part input.pad_width)) n in
    valid-text (input.prefix ++ body)
      (starts-append input.prefix body a.starts (starts-of-digits body ds l))
      (all-append is_id_char input.prefix body ∙ rw (a.ids) (ids-of-digits body ds))
      (omega (arith, length-append input.prefix body, utf16_length-ids input.prefix a.ids, a.short))
