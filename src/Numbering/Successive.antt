-- ===== src/Numbering/Successive.antt =====
-- Two calls of `allocateNext` of
-- apps/api/src/settings/invoice-numbering/invoice-numbering.service.ts, one after the other.
use einvoice.Prelude.{
  ℕ, suc, ◌≤◌, ◌<◌, ◌≡◌, ◌≢◌, sym, ◌∙◌, ap, subst, List, Option, Text, ok, arith,
}
use einvoice.InternalId.Injective.{format_internal_id-injective}
use einvoice.Numbering.{Tenant, Allocated, scope_key, scheme_or_default, allocate_next, find_row}
use einvoice.Numbering.Rows.{used}
use einvoice.Numbering.Attempts.{id_of}
use einvoice.Numbering.Allocation.{allocate_next-IsAllocation}

above-less : (m n : ℕ) {u : ℕ} → u ≡ suc m → u ≤ n → m < n
above-less m n e h = omega arith

-- Of two allocations for the same branch and kind, one after the other, the second has a larger
-- number and another id, whatever documents the tenant has at the second one.
pub allocate_next-increases :
    (t t' t'' : Tenant) (documents : List Text) (branch_id kind : Option Text) (a b : Allocated)
    → allocate_next t branch_id kind ≡ ok (t', a)
    → allocate_next (record t' { internal_ids = documents }) branch_id kind ≡ ok (t'', b)
    → (a.sequence_number < b.sequence_number) × (a.internal_id ≢ b.internal_id)
allocate_next-increases t t' t'' documents branch_id kind a b h k =
    let s = scheme_or_default t.scheme in
    let first = allocate_next-IsAllocation t t' branch_id kind a h in
    let second =
      allocate_next-IsAllocation (record t' { internal_ids = documents }) t'' branch_id kind b k in
    let same = ap scheme_or_default first.kept_scheme in
    let above =
      subst
        (λ x.
          used (find_row t'.sequences (scope_key x.scope branch_id kind).key) ≤ b.sequence_number)
        same second.above in
    let formatted = subst (λ x. b.internal_id ≡ id_of x b.sequence_number) same second.formatted in
    let less = above-less a.sequence_number b.sequence_number first.recorded above in
    (
      less,
      λ e.
          let n =
            format_internal_id-injective s.prefix s.pad_width a.sequence_number b.sequence_number
              (sym first.formatted ∙ e ∙ formatted) in
          omega arith,
    )
