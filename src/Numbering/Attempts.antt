-- ===== src/Numbering/Attempts.antt =====
-- One attempt of `allocateNext` of
-- apps/api/src/settings/invoice-numbering/invoice-numbering.service.ts, by its outcome.
use einvoice.Prelude.{ℕ, suc, ◌≡◌, refl, true, false, some, Text, pos, has, ok, thrown}
use einvoice.InternalId.{format_internal_id, is_valid_eta_internal_id}
use einvoice.Numbering.{Scheme, ScopeKey, Tenant, Allocated, invalid_internal_id, allocate_loop}
use einvoice.Numbering.Rows.{next_number, bump}

-- The internal id of a number.
abbrev pub id_of : Scheme → ℕ → Text
id_of s n = format_internal_id s.prefix (pos n) s.pad_width

abbrev pub allocated : Scheme → ℕ → Allocated
allocated s n = record { internal_id = id_of s n; sequence_number = n }

module _ (k : ℕ) (s : Scheme) (sk : ScopeKey) (t : Tenant) where
  pub attempt-invalid :
      is_valid_eta_internal_id (some (id_of s (next_number s sk t))) ≡ false
      → allocate_loop (suc k) s sk t ≡ thrown (invalid_internal_id (id_of s (next_number s sk t)))
  unfolding allocate_loop
  attempt-invalid v = rw (v, allocate_loop) refl

  pub attempt-clash :
      is_valid_eta_internal_id (some (id_of s (next_number s sk t))) ≡ true
      → has t.internal_ids (id_of s (next_number s sk t)) ≡ true
      → allocate_loop (suc k) s sk t ≡ allocate_loop k s sk (bump s sk t)
  unfolding allocate_loop
  attempt-clash v c = rw (v, c, allocate_loop) refl

  pub attempt-free :
      is_valid_eta_internal_id (some (id_of s (next_number s sk t))) ≡ true
      → has t.internal_ids (id_of s (next_number s sk t)) ≡ false
      → allocate_loop (suc k) s sk t ≡ ok (bump s sk t, allocated s (next_number s sk t))
  unfolding allocate_loop
  attempt-free v c = rw (v, c, allocate_loop) refl
