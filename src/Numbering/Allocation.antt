-- ===== src/Numbering/Allocation.antt =====
-- What `allocateNext` of
-- apps/api/src/settings/invoice-numbering/invoice-numbering.service.ts returns.
use einvoice.Prelude.{
  ℕ, zero, suc, ◌≤◌, ◌≡◌, refl, sym, ◌∙◌, ap, subst, true, false, inl, inr, Option, some, Text,
  text_eq, has, ok, arith, Bool-cases, ok-injective,
}
use einvoice.InternalId.{is_valid_eta_internal_id}
use einvoice.Numbering.{
  Scheme, ScopeKey, Tenant, Allocated, find_row, scope_key, scheme_or_default, allocate_loop,
  allocate_next, max_attempts,
}
use einvoice.Numbering.Rows.{
  used, next_number, bump, bumped_row-bounds, find_row-bump, find_row-bump_other,
}
use einvoice.Numbering.Attempts.{id_of, attempt-invalid, attempt-clash, attempt-free}

-- An allocation under a scheme and a scope key: the id is the formatted number, is one that ETA
-- takes and that no document has; the number is not below the starting number and is above all that
-- the sequence gave; the sequence records it; and nothing else changes.
pub record IsAllocation (s : Scheme) (sk : ScopeKey) (t t' : Tenant) (a : Allocated) : Type 0 where
  pub formatted : a.internal_id ≡ id_of s a.sequence_number
  pub valid : is_valid_eta_internal_id (some a.internal_id) ≡ true
  pub fresh : has t.internal_ids a.internal_id ≡ false
  pub started : s.starting_number ≤ a.sequence_number
  pub above : used (find_row t.sequences sk.key) ≤ a.sequence_number
  pub recorded : used (find_row t'.sequences sk.key) ≡ suc a.sequence_number
  pub others :
      (k : Text) → text_eq sk.key k ≡ false → find_row t'.sequences k ≡ find_row t.sequences k
  pub documents : t'.internal_ids ≡ t.internal_ids
  pub kept_scheme : t'.scheme ≡ t.scheme

free-IsAllocation :
    (s : Scheme) (sk : ScopeKey) (t : Tenant)
    → is_valid_eta_internal_id (some (id_of s (next_number s sk t))) ≡ true
    → has t.internal_ids (id_of s (next_number s sk t)) ≡ false
    → IsAllocation s sk t (bump s sk t) (record {
      internal_id = id_of s (next_number s sk t);
      sequence_number = next_number s sk t;
    })
free-IsAllocation s sk t v c = record {
  formatted = refl;
  valid = v;
  fresh = c;
  started = (bumped_row-bounds s sk (find_row t.sequences sk.key)).0;
  above = (bumped_row-bounds s sk (find_row t.sequences sk.key)).1;
  recorded = ap used (find_row-bump s sk t);
  others = find_row-bump_other s sk t;
  documents = refl;
  kept_scheme = refl;
}

bump-IsAllocation :
    (s : Scheme) (sk : ScopeKey) (t t' : Tenant) (a : Allocated)
    → IsAllocation s sk (bump s sk t) t' a
    → IsAllocation s sk t t' a
bump-IsAllocation s sk t t' a h = record {
  formatted = h.formatted;
  valid = h.valid;
  fresh = h.fresh;
  started = h.started;
  above = omega (
    arith,
    (bumped_row-bounds s sk (find_row t.sequences sk.key)).1,
    ap used (find_row-bump s sk t),
    h.above,
  );
  recorded = h.recorded;
  others = λ k e. h.others k e ∙ find_row-bump_other s sk t k e;
  documents = h.documents;
  kept_scheme = h.kept_scheme;
}

allocate_loop-IsAllocation :
    (k : ℕ) (s : Scheme) (sk : ScopeKey) (t t' : Tenant) (a : Allocated)
    → allocate_loop k s sk t ≡ ok (t', a)
    → IsAllocation s sk t t' a
unfolding allocate_loop
allocate_loop-IsAllocation zero s sk t t' a h = cc
allocate_loop-IsAllocation (suc k) s sk t t' a h =
    elim (Bool-cases (is_valid_eta_internal_id (some (id_of s (next_number s sk t))))) [
      | inr v ↦ let e = sym (attempt-invalid k s sk t v) ∙ h in cc
      | inl v ↦ elim (Bool-cases (has t.internal_ids (id_of s (next_number s sk t)))) [
        | inl c ↦ bump-IsAllocation s sk t t' a (
            allocate_loop-IsAllocation k s sk (bump s sk t) t' a
              (sym (attempt-clash k s sk t v c) ∙ h))
        | inr c ↦
            subst (λ p. IsAllocation s sk t p.0 p.1)
              (ok-injective (sym (attempt-free k s sk t v c) ∙ h)) (free-IsAllocation s sk t v c)
      ]
    ]

-- Whenever an allocation returns, its id is the formatted number, is one that ETA takes and that no
-- document of the tenant has; the number is not below the starting number and is above every number
-- that its sequence gave before; its sequence records it; and no other sequence and no document is
-- changed.
pub allocate_next-IsAllocation :
    (t t' : Tenant) (branch_id kind : Option Text) (a : Allocated)
    → allocate_next t branch_id kind ≡ ok (t', a)
    → (let s = scheme_or_default t.scheme in
        IsAllocation s (scope_key s.scope branch_id kind) (record t { scheme = some s }) t' a)
unfolding allocate_next
allocate_next-IsAllocation t t' branch_id kind a h =
    let s = scheme_or_default t.scheme in
    allocate_loop-IsAllocation max_attempts s (scope_key s.scope branch_id kind)
      (record t { scheme = some s }) t' a h
