-- ===== src/Numbering/Searching.antt =====
-- Which number `allocateNext` of
-- apps/api/src/settings/invoice-numbering/invoice-numbering.service.ts ends on.
use einvoice.Prelude.{
  ℕ, zero, suc, ◌+◌, ◌≤◌, ◌<◌, ◌≡◌, refl, sym, ◌∙◌, ap, subst, true, false, inl, inr, ◌⊎◌, Option,
  none, some, Text, has, Result, ok, thrown, arith,
}
use einvoice.InternalId.{is_valid_eta_internal_id}
use einvoice.Numbering.{
  Scheme, ScopeKey, Tenant, Allocated, NumberingError, could_not_allocate, scope_key,
  scheme_or_default, find_row, allocate_loop, allocate_next, max_attempts, peek_next, greatest,
  after_last, bumped_row, Sequence,
}
use einvoice.Numbering.Rows.{next_number, bump, next_number-bump}
use einvoice.Numbering.Attempts.{id_of, allocated, attempt-clash, attempt-free}

-- The id of the number is one that ETA takes, and a document has it already.
abbrev pub Taken : Scheme → Tenant → ℕ → Type 0
Taken s t m =
    (is_valid_eta_internal_id (some (id_of s m)) ≡ true) × (has t.internal_ids (id_of s m) ≡ true)

-- The id of the number is one that ETA takes, and no document has it.
abbrev pub Free : Scheme → Tenant → ℕ → Type 0
Free s t m =
    (is_valid_eta_internal_id (some (id_of s m)) ≡ true) × (has t.internal_ids (id_of s m) ≡ false)

-- A result that returned this allocation.
abbrev pub Returns : Scheme → ℕ → Result NumberingError (Tenant × Allocated) → Type 0
Returns s m r = (t' : Tenant) × (r ≡ ok (t', allocated s m))

pub ends : (n m : ℕ) → n ≤ m → (n ≡ m) ⊎ (n < m)
ends n m h = ground arith

allocate_loop-finds :
    (k : ℕ) (s : Scheme) (sk : ScopeKey) (t : Tenant) (m : ℕ)
    → next_number s sk t ≤ m
    → m < next_number s sk t + k
    → ((i : ℕ) → next_number s sk t ≤ i → i < m → Taken s t i)
    → Free s t m
    → Returns s m (allocate_loop k s sk t)
allocate_loop-finds zero s sk t m l u taken free = absurd (omega arith)
allocate_loop-finds (suc k) s sk t m l u taken (v, f) = elim (ends (next_number s sk t) m l) [
  | inl e ↦
      subst (λ x. Returns s x (allocate_loop (suc k) s sk t)) e
        (
          bump s sk t,
          attempt-free k s sk t
              (subst (λ x. is_valid_eta_internal_id (some (id_of s x)) ≡ true) (sym e) v)
              (subst (λ x. has t.internal_ids (id_of s x) ≡ false) (sym e) f),
        )
  | inr b ↦
      let (v0, c0) = taken (next_number s sk t) (omega arith) b in
      let e = next_number-bump s sk t in
      let (t', r) =
        allocate_loop-finds k s sk (bump s sk t) m (omega (arith, e)) (omega (arith, e))
          (λ i li ui. taken i (omega (arith, e)) ui) (v, f) in
      (t', attempt-clash k s sk t v0 c0 ∙ r)
]

allocate_loop-exhausted :
    (k : ℕ) (s : Scheme) (sk : ScopeKey) (t : Tenant)
    → ((i : ℕ) → next_number s sk t ≤ i → i < next_number s sk t + k → Taken s t i)
    → allocate_loop k s sk t ≡ thrown could_not_allocate
unfolding allocate_loop
allocate_loop-exhausted zero s sk t taken = refl
allocate_loop-exhausted (suc k) s sk t taken =
    let (v, c) = taken (next_number s sk t) (omega arith) (omega arith) in
    let e = next_number-bump s sk t in
    attempt-clash k s sk t v c
    ∙ allocate_loop-exhausted k s sk (bump s sk t)
        (λ i li ui. taken i (omega (arith, e)) (omega (arith, e)))

peeked_number :
    (s : Scheme) (sk : ScopeKey) (o : Option Sequence)
    → 1 ≤ s.starting_number
    → greatest s.starting_number (after_last o) ≡ (bumped_row s sk o).last_value
unfolding bumped_row
peeked_number s sk none h = ground arith
peeked_number s sk (some r) h = ground arith

module _ (t : Tenant) (branch_id kind : Option Text) where
  -- The number that the first attempt takes.
  abbrev pub first_number : ℕ
  first_number =
      let s = scheme_or_default t.scheme in next_number s (scope_key s.scope branch_id kind) t

  -- When one of the 25 numbers from the first one on has an id that no document has, and the ids
  -- up to it are such that ETA takes them, the allocation returns the first such number.
  pub allocate_next-finds :
      (m : ℕ)
      → first_number ≤ m
      → m < first_number + 25
      → ((i : ℕ) → first_number ≤ i → i < m → Taken (scheme_or_default t.scheme) t i)
      → Free (scheme_or_default t.scheme) t m
      → Returns (scheme_or_default t.scheme) m (allocate_next t branch_id kind)
  unfolding allocate_next
  allocate_next-finds m l u taken free =
      let s = scheme_or_default t.scheme in
      allocate_loop-finds max_attempts s (scope_key s.scope branch_id kind)
        (record t { scheme = some s }) m l u taken free

  -- When documents have the ids of all 25 numbers from the first one on, and ETA takes those ids,
  -- the allocation throws, whatever number after them is free.
  pub allocate_next-exhausted :
      ((i : ℕ) → first_number ≤ i → i < first_number + 25 → Taken (scheme_or_default t.scheme) t i)
      → allocate_next t branch_id kind ≡ thrown could_not_allocate
  unfolding allocate_next
  allocate_next-exhausted taken =
      let s = scheme_or_default t.scheme in
      allocate_loop-exhausted max_attempts s (scope_key s.scope branch_id kind)
        (record t { scheme = some s }) taken

  first_number-peek_next :
      1 ≤ (scheme_or_default t.scheme).starting_number
      → (peek_next t branch_id kind).1 ≡ id_of (scheme_or_default t.scheme) first_number
  unfolding peek_next
  first_number-peek_next l =
      let s = scheme_or_default t.scheme in
      ap (id_of s) (
        peeked_number s (scope_key s.scope branch_id kind)
          (find_row t.sequences (scope_key s.scope branch_id kind).key) l)

  -- Under a starting number of at least 1, the id that `peekNext` shows is the one that the next
  -- allocation returns, when ETA takes it and no document has it.
  pub allocate_next-peek_next :
      1 ≤ (scheme_or_default t.scheme).starting_number
      → is_valid_eta_internal_id (some (peek_next t branch_id kind).1) ≡ true
      → has t.internal_ids (peek_next t branch_id kind).1 ≡ false
      → (t' : Tenant) × (a : Allocated) × (allocate_next t branch_id kind ≡ ok (t', a))
        × (a.internal_id ≡ (peek_next t branch_id kind).1)
  allocate_next-peek_next l v f =
      let s = scheme_or_default t.scheme in
      let e = first_number-peek_next l in
      let (t', r) =
        allocate_next-finds first_number (omega arith) (omega arith)
          (λ i li ui. absurd (omega arith))
          (
            subst (λ x. is_valid_eta_internal_id (some x) ≡ true) e v,
            subst (λ x. has t.internal_ids x ≡ false) e f,
          ) in
      (t', allocated s first_number, r, sym e)
