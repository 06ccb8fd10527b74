-- ===== src/Numbering/Tests.antt =====
-- Runs of
-- apps/api/src/settings/invoice-numbering/invoice-numbering.service.ts, and the theorems at concrete
-- inputs.
use einvoice.Prelude.{
  ℕ, zero, suc, ◌+◌, ◌≤◌, ◌<◌, ◌≡◌, ◌≢◌, refl, subst, inl, inr, Bool, true, ◌&&◌, Option, none,
  some, List, [], ◌∷◌, Text, lit, pos, has, ok, thrown, arith, and_parts, trim,
}
use einvoice.Prelude.Numeral.{digits}
use einvoice.InternalId.{
  alphanumeric, format_internal_id, is_valid_eta_internal_id, validate_internal_id_scheme,
  utf16_length, matches_internal_id, field_issues, sample_issues, InternalIdSchemeInput,
}
use einvoice.InternalId.Schemes.{format_internal_id-valid}
use einvoice.Numbering.{
  Scheme, Tenant, Allocated, branch, could_not_allocate, scope_key, bumped_row, allocate_loop,
  allocate_next, peek_next,
}
use einvoice.Numbering.Attempts.{id_of}
use einvoice.Numbering.Allocation.{IsAllocation, allocate_next-IsAllocation}
use einvoice.InternalId.Injective.{format_internal_id-injective}
use einvoice.Numbering.Histories.{
  Issue, Step, allocates, documents_change, Counts, counter, Step-Counts, History, empty, silent,
  giving, IsIncreasing, History-IsIncreasing,
}
use einvoice.Numbering.Successive.{allocate_next-increases}
use einvoice.Numbering.Searching.{
  Taken, Returns, ends, first_number, allocate_next-finds, allocate_next-exhausted,
  allocate_next-peek_next,
}

run : Unit {0}
unfolding allocate_next allocate_loop bumped_row scope_key trim format_internal_id digits
    is_valid_eta_internal_id utf16_length matches_internal_id peek_next validate_internal_id_scheme
    field_issues sample_issues
run = tt

abbrev branch_scheme : Scheme
branch_scheme = record {
  prefix = lit "A-";
  pad_width = pos 2;
  starting_number = 1;
  charset = alphanumeric;
  scope = branch;
}

abbrev ids_from : ℕ → ℕ → List Text
ids_from zero n = []
ids_from (suc k) n = id_of branch_scheme n ∷ ids_from k (suc n)

-- A tenant whose first branch has documents with the first 25 numbers.
abbrev crowded : Tenant
crowded = record { scheme = some branch_scheme; sequences = []; internal_ids = ids_from 25 1 }

-- A tenant with a document that has the second number.
abbrev busy : Tenant
busy = record { scheme = some branch_scheme; sequences = []; internal_ids = lit "A-01" ∷ [] }

abbrev second_branch : Option Text
second_branch = some (lit " b2 ")

-- A test of the numbers from `n` on.
abbrev each : (ℕ → Bool) → ℕ → ℕ → Bool
each p zero n = true
each p (suc k) n = p n && each p k (suc n)

each-holds : (p : ℕ → Bool) (k n : ℕ) → each p k n ≡ true → (i : ℕ) → n ≤ i → i < n + k → p i ≡ true
each-holds p zero n h i l u = absurd (omega arith)
each-holds p (suc k) n h i l u =
    let (now, later) = and_parts (p n) (each p k (suc n)) h in
    elim (ends n i l) [
      | inl e ↦ subst (λ x. p x ≡ true) e now
      | inr b ↦ each-holds p k (suc n) later i (omega arith) (omega arith)
    ]

abbrev is_taken : Tenant → ℕ → Bool
is_taken t m =
    is_valid_eta_internal_id (some (id_of branch_scheme m))
    && has t.internal_ids (id_of branch_scheme m)

crowded_run : each (is_taken crowded) 25 1 ≡ true
unfolding run
crowded_run = refl

crowded-Taken : (i : ℕ) → 1 ≤ i → i < 26 → Taken branch_scheme crowded i
crowded-Taken i l u = and_parts _ _ (each-holds (is_taken crowded) 25 1 crowded_run i l u)

first_number_run : first_number crowded second_branch none ≡ 1
unfolding run
first_number_run = refl

allocate_next-exhausted_example :
    allocate_next crowded second_branch none ≡ thrown could_not_allocate
unfolding run
allocate_next-exhausted_example = allocate_next-exhausted crowded second_branch none crowded-Taken

busy-Taken : (i : ℕ) → 1 ≤ i → i < 2 → Taken branch_scheme busy i
unfolding run
busy-Taken i l u = and_parts _ _ (each-holds (is_taken busy) 1 1 refl i l u)

allocate_next-finds_example : Returns branch_scheme 2 (allocate_next busy second_branch none)
unfolding run
allocate_next-finds_example =
    allocate_next-finds busy second_branch none 2 (omega arith) (omega arith) busy-Taken
      (refl, refl)

abbrev busy_after : Tenant
busy_after = record busy {
  sequences =
      record {
        scope_key = lit "b2";
        branch_id = some (lit "b2");
        document_kind = none;
        last_value = 2;
      }
      ∷ [];
}

allocate_next-IsAllocation_example :
    IsAllocation branch_scheme
      (scope_key branch second_branch none)
      busy
      busy_after
      (record { internal_id = lit "A-02"; sequence_number = 2 })
unfolding run
allocate_next-IsAllocation_example =
    allocate_next-IsAllocation busy busy_after second_branch none
      (record { internal_id = lit "A-02"; sequence_number = 2 }) refl

allocate_next-peek_next_example :
    (t' : Tenant) × (a : Allocated) × (allocate_next busy_after second_branch none ≡ ok (t', a))
    × (a.internal_id ≡ lit "A-03")
unfolding run
allocate_next-peek_next_example =
    allocate_next-peek_next busy_after second_branch none (omega arith) refl refl

-- Under a starting number of 0 the two differ.
abbrev from_zero : Tenant
from_zero = record {
  scheme = some (record branch_scheme { starting_number = 0 });
  sequences = [];
  internal_ids = [];
}

peek_zero_run : (peek_next from_zero second_branch none).1 ≡ lit "A-01"
unfolding run
peek_zero_run = refl

allocate_zero_run :
    allocate_next from_zero second_branch none
    ≡ ok (
      record from_zero {
        sequences =
            record {
              scope_key = lit "b2";
              branch_id = some (lit "b2");
              document_kind = none;
              last_value = 0;
            }
            ∷ [];
      },
      record { internal_id = lit "A-00"; sequence_number = 0 },
    )
unfolding run
allocate_zero_run = refl

abbrev checked_scheme : InternalIdSchemeInput
checked_scheme = record {
  prefix = lit "INV-";
  pad_width = pos 6;
  starting_number = pos 1;
  charset = alphanumeric;
}

format_internal_id-valid_example :
    is_valid_eta_internal_id (some (format_internal_id (lit "INV-") (pos 12345678) (pos 6))) ≡ true
unfolding run
format_internal_id-valid_example =
    format_internal_id-valid checked_scheme 12345678 refl (omega arith)

abbrev busy_later : Tenant
busy_later = record busy {
  sequences =
      record {
        scope_key = lit "b2";
        branch_id = some (lit "b2");
        document_kind = none;
        last_value = 3;
      }
      ∷ [];
}

allocate_next-increases_example : (2 < 3) × (lit "A-02" ≢ lit "A-03")
unfolding run
allocate_next-increases_example =
    allocate_next-increases busy busy_after busy_later (lit "A-01" ∷ []) second_branch none
      (record { internal_id = lit "A-02"; sequence_number = 2 })
      (record { internal_id = lit "A-03"; sequence_number = 3 }) refl refl

format_internal_id-injective_example : ◌≡◌ {A = ℕ} 7 7
format_internal_id-injective_example = format_internal_id-injective (lit "A-") (pos 3) 7 7 refl

abbrev issued : Text → ℕ → Issue
issued key number = record { key = key; number = number }

first_allocation : Step busy (some (issued (lit "b2") 2)) busy_after
unfolding run
first_allocation =
    allocates second_branch none (record { internal_id = lit "A-02"; sequence_number = 2 }) refl

second_allocation :
    Step
      (record busy_after { internal_ids = lit "A-01" ∷ [] })
      (some (issued (lit "b2") 3))
      busy_later
unfolding run
second_allocation =
    allocates second_branch none (record { internal_id = lit "A-03"; sequence_number = 3 }) refl

Step-Counts_example : Counts (counter busy) (some (issued (lit "b2") 2)) (counter busy_after)
Step-Counts_example = Step-Counts first_allocation

abbrev two_issues : List Issue
two_issues = issued (lit "b2") 2 ∷ issued (lit "b2") 3 ∷ []

two_issues-History : History busy two_issues busy_later
two_issues-History = giving first_allocation (
    silent (documents_change busy_after (lit "A-01" ∷ []))
      (giving second_allocation (empty busy_later)))

History-IsIncreasing_example : IsIncreasing two_issues
History-IsIncreasing_example = History-IsIncreasing busy busy_later two_issues two_issues-History
