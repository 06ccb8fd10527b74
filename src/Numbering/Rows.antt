-- ===== src/Numbering/Rows.antt =====
-- Reading and writing the sequence rows of
-- apps/api/src/settings/invoice-numbering/invoice-numbering.service.ts.
use einvoice.Prelude.{
  ℕ, suc, ◌+◌, ◌≤◌, ◌≡◌, refl, ◌∙◌, ap, subst, true, false, inl, inr, Option, none, some, List, [],
  ◌∷◌, Text, text_eq, text_eq_self, eq_of_text_eq, arith, Bool-cases,
}
use einvoice.Numbering.{
  Scheme, Sequence, ScopeKey, Tenant, find_row, write_row, greatest, bumped_row,
}

pub find_row-write_row :
    (rs : List Sequence) (row : Sequence) → find_row (write_row rs row) row.scope_key ≡ some row
find_row-write_row [] row = rw (text_eq_self row.scope_key) refl
find_row-write_row (r ∷ rs) row = elim (Bool-cases (text_eq r.scope_key row.scope_key)) [
  | inl e ↦ rw e (rw (text_eq_self row.scope_key) refl)
  | inr e ↦ rw e (rw e (find_row-write_row rs row))
]

row_other :
    (r row : Sequence) (k : Text)
    → text_eq r.scope_key row.scope_key ≡ true
    → text_eq row.scope_key k ≡ false
    → text_eq r.scope_key k ≡ false
row_other r row k e h = rw (eq_of_text_eq r.scope_key row.scope_key e) h

pub find_row-write_row_other :
    (rs : List Sequence) (row : Sequence) (k : Text)
    → text_eq row.scope_key k ≡ false
    → find_row (write_row rs row) k ≡ find_row rs k
find_row-write_row_other [] row k h = rw h refl
find_row-write_row_other (r ∷ rs) row k h = elim (Bool-cases (text_eq r.scope_key row.scope_key)) [
  | inl e ↦ rw e (rw h (rw (row_other r row k e h) refl))
  | inr e ↦ rw e (elim (Bool-cases (text_eq r.scope_key k)) [
    | inl f ↦ rw f refl
    | inr f ↦ rw f (find_row-write_row_other rs row k h)
  ])
]

-- One past the last value of a row, 0 where there is no row.
abbrev pub used : Option Sequence → ℕ
used none = 0
used (some r) = suc r.last_value

pub bumped_row-key :
    (s : Scheme) (sk : ScopeKey) (rs : List Sequence)
    → (bumped_row s sk (find_row rs sk.key)).scope_key ≡ sk.key
unfolding bumped_row
bumped_row-key s sk [] = refl
bumped_row-key s sk (r ∷ rs) = elim (Bool-cases (text_eq r.scope_key sk.key)) [
  | inl e ↦ rw e (eq_of_text_eq r.scope_key sk.key e)
  | inr e ↦ rw e (bumped_row-key s sk rs)
]

-- The number that the statement of `allocateNext` returns.
abbrev pub next_number : Scheme → ScopeKey → Tenant → ℕ
next_number s sk t = (bumped_row s sk (find_row t.sequences sk.key)).last_value

-- The state after that statement.
abbrev pub bump : Scheme → ScopeKey → Tenant → Tenant
bump s sk t = record t {
  sequences = write_row t.sequences (bumped_row s sk (find_row t.sequences sk.key));
}

pub bumped_row-bounds :
    (s : Scheme) (sk : ScopeKey) (o : Option Sequence)
    → (s.starting_number ≤ (bumped_row s sk o).last_value)
      × (used o ≤ (bumped_row s sk o).last_value)
unfolding bumped_row
bumped_row-bounds s sk none = (omega arith, omega arith)
bumped_row-bounds s sk (some r) = (ground arith, ground arith)

pub find_row-bump :
    (s : Scheme) (sk : ScopeKey) (t : Tenant)
    → find_row (bump s sk t).sequences sk.key ≡ some (bumped_row s sk (find_row t.sequences sk.key))
find_row-bump s sk t =
    let row = bumped_row s sk (find_row t.sequences sk.key) in
    subst (λ k. find_row (write_row t.sequences row) k ≡ some row) (bumped_row-key s sk t.sequences)
      (find_row-write_row t.sequences row)

pub find_row-bump_other :
    (s : Scheme) (sk : ScopeKey) (t : Tenant) (k : Text)
    → text_eq sk.key k ≡ false
    → find_row (bump s sk t).sequences k ≡ find_row t.sequences k
find_row-bump_other s sk t k h =
    find_row-write_row_other t.sequences _ k (rw (bumped_row-key s sk t.sequences) h)

greatest-next : (n start : ℕ) → start ≤ n → greatest (n + 1) start ≡ suc n
greatest-next n start h = ground arith

-- Once bumped, a sequence gives the next number.
pub next_number-bump :
    (s : Scheme) (sk : ScopeKey) (t : Tenant)
    → next_number s sk (bump s sk t) ≡ suc (next_number s sk t)
unfolding bumped_row
next_number-bump s sk t =
    let (b, _) = bumped_row-bounds s sk (find_row t.sequences sk.key) in
    ap (λ o. (bumped_row s sk o).last_value) (find_row-bump s sk t) ∙ greatest-next _ _ b
