-- ===== src/Numbering.antt =====
-- apps/api/src/settings/invoice-numbering/invoice-numbering.service.ts: the numbering scheme of a
-- tenant, its sequences, and the allocation of internal ids.
--
-- The rows of one tenant are explicit state. A method runs in one transaction: a thrown error
-- carries no state, since the transaction is rolled back. `last_value` is below 2^53, where
-- `Number` is exact. The audit record is left out.
pub mod Allocation
pub mod Searching
pub mod Successive
pub mod Histories
pub mod Rows
pub mod Attempts
mod Tests
use einvoice.Prelude.{
  ℕ, zero, suc, ◌+◌, Bool, true, false, not, Option, none, some, List, [], ◌∷◌, ◌++◌, ℤ, pos,
  pos_part, Text, lit, text_eq, trim, leb, if◌then◌else◌, has, Result, ok, thrown,
}
use einvoice.InternalId.{
  Charset, numeric, InternalIdSchemeInput, InternalIdSchemeIssue, validate_internal_id_scheme,
  format_internal_id, is_valid_eta_internal_id,
}

pub data Scope : Type 0 where
  tenant branch document_kind branch_and_kind : Scope

-- The starting number is not negative: `upsert` refuses one that is.
pub record Scheme : Type 0 where
  pub prefix : Text
  pub pad_width : ℤ
  pub starting_number : ℕ
  pub charset : Charset
  pub scope : Scope

-- A row of document_number_sequences, of which a tenant has one for each scope key.
pub record Sequence : Type 0 where
  pub scope_key : Text
  pub branch_id : Option Text
  pub document_kind : Option Text
  pub last_value : ℕ

pub record Tenant : Type 0 where
  pub scheme : Option Scheme
  pub sequences : List Sequence
  -- The internal ids of the tenant's documents.
  pub internal_ids : List Text

pub record ScopeKey : Type 0 where
  pub key : Text
  pub branch_id : Option Text
  pub document_kind : Option Text

pub data NumberingError : Type 0 where
  invalid_numbering_scheme : List InternalIdSchemeIssue → NumberingError
  invalid_internal_id : Text → NumberingError
  could_not_allocate : NumberingError

-- `value?.trim() || '_'`
abbrev key_part : Option Text → Text
key_part none = lit "_"
key_part (some value) = elim (trim value) [ [] ↦ lit "_" | c ∷ s ↦ c ∷ s ]

-- `value?.trim() || null`
abbrev trimmed : Option Text → Option Text
trimmed none = none
trimmed (some value) = elim (trim value) [ [] ↦ none | c ∷ s ↦ some (c ∷ s) ]

unfoldable pub scope_key : Scope → Option Text → Option Text → ScopeKey
unfolding trim
scope_key tenant b k = record { key = []; branch_id = none; document_kind = none }
scope_key branch b k = record { key = key_part b; branch_id = trimmed b; document_kind = none }
scope_key document_kind b k = record {
  key = key_part k;
  branch_id = none;
  document_kind = trimmed k;
}
scope_key branch_and_kind b k = record {
  key = key_part b ++ (lit "::" ++ key_part k);
  branch_id = trimmed b;
  document_kind = trimmed k;
}

abbrev pub default_scheme : Scheme
default_scheme = record {
  prefix = lit "INV-";
  pad_width = pos 6;
  starting_number = 1;
  charset = numeric;
  scope = tenant;
}

abbrev pub scheme_or_default : Option Scheme → Scheme
scheme_or_default none = default_scheme
scheme_or_default (some s) = s

-- The row of the scheme is made when there is none.
abbrev pub ensure_scheme : Tenant → Tenant × Scheme
ensure_scheme t = let s = scheme_or_default t.scheme in (record t { scheme = some s }, s)

abbrev pub find_row : List Sequence → Text → Option Sequence
find_row [] key = none
find_row (r ∷ rs) key = if text_eq r.scope_key key then some r else find_row rs key

abbrev pub write_row : List Sequence → Sequence → List Sequence
write_row [] row = row ∷ []
write_row (r ∷ rs) row =
    if text_eq r.scope_key row.scope_key then row ∷ rs else r ∷ write_row rs row

abbrev pub greatest : ℕ → ℕ → ℕ
greatest a b = if leb a b then b else a

-- The row that `INSERT ... ON CONFLICT (tenant_id, scope_key) DO UPDATE` leaves.
unfoldable pub bumped_row : Scheme → ScopeKey → Option Sequence → Sequence
bumped_row scheme scoped none = record {
  scope_key = scoped.key;
  branch_id = scoped.branch_id;
  document_kind = scoped.document_kind;
  last_value = scheme.starting_number;
}
bumped_row scheme scoped (some row) = record row {
  last_value = greatest (row.last_value + 1) scheme.starting_number;
}

pub record Allocated : Type 0 where
  pub internal_id : Text
  pub sequence_number : ℕ

-- The attempts that are left.
unfoldable pub allocate_loop :
    ℕ → Scheme → ScopeKey → Tenant → Result NumberingError (Tenant × Allocated)
unfolding bumped_row
allocate_loop zero scheme scoped t = thrown could_not_allocate
allocate_loop (suc attempts) scheme scoped t =
    let row = bumped_row scheme scoped (find_row t.sequences scoped.key) in
    let id = format_internal_id scheme.prefix (pos row.last_value) scheme.pad_width in
    let bumped = record t { sequences = write_row t.sequences row } in
    elim (is_valid_eta_internal_id (some id)) [
      | false ↦ thrown (invalid_internal_id id)
      | true ↦ elim (has t.internal_ids id) [
        | true ↦ allocate_loop attempts scheme scoped bumped
        | false ↦ ok (bumped, record { internal_id = id; sequence_number = row.last_value })
      ]
    ]

abbrev pub max_attempts : ℕ
max_attempts = 25

unfoldable pub allocate_next :
    Tenant → Option Text → Option Text → Result NumberingError (Tenant × Allocated)
unfolding allocate_loop
allocate_next t branch_id kind =
    let (t', scheme) = ensure_scheme t in
    allocate_loop max_attempts scheme (scope_key scheme.scope branch_id kind) t'

-- `Number(seq?.lastValue ?? 0n) + 1`
abbrev pub after_last : Option Sequence → ℕ
after_last none = 1
after_last (some row) = row.last_value + 1

unfoldable pub peek_next : Tenant → Option Text → Option Text → Tenant × Text
peek_next t branch_id kind =
    let (t', scheme) = ensure_scheme t in
    let scoped = scope_key scheme.scope branch_id kind in
    let next = greatest scheme.starting_number (after_last (find_row t'.sequences scoped.key)) in
    (t', format_internal_id scheme.prefix (pos next) scheme.pad_width)

pub record NumberingView : Type 0 where
  pub scheme : Scheme
  pub preview_next : Text

unfoldable pub get : Tenant → Tenant × NumberingView
get t =
    let (t', scheme) = ensure_scheme t in
    let next = greatest scheme.starting_number (after_last (find_row t'.sequences [])) in
    (
      t',
      record {
        scheme = scheme;
        preview_next = format_internal_id scheme.prefix (pos next) scheme.pad_width;
      },
    )

pub record UpsertInput : Type 0 where
  pub checked : InternalIdSchemeInput
  pub scope : Scope

abbrev scheme_of : UpsertInput → Scheme
scheme_of input = record {
  prefix = input.checked.prefix;
  pad_width = input.checked.pad_width;
  starting_number = pos_part input.checked.starting_number;
  charset = input.checked.charset;
  scope = input.scope;
}

-- The scheme is saved unless the validation found an issue.
unfoldable pub save_scheme :
    Tenant
    → UpsertInput
    → List InternalIdSchemeIssue
    → Result NumberingError (Tenant × NumberingView)
unfolding get
save_scheme t input (i ∷ is) = thrown (invalid_numbering_scheme (i ∷ is))
save_scheme t input [] = ok (get (record t { scheme = some (scheme_of input) }))

unfoldable pub upsert : Tenant → UpsertInput → Result NumberingError (Tenant × NumberingView)
unfolding save_scheme
upsert t input = save_scheme t input (validate_internal_id_scheme input.checked)
