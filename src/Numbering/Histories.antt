-- ===== src/Numbering/Histories.antt =====
-- The histories of a tenant under
-- apps/api/src/settings/invoice-numbering/invoice-numbering.service.ts, as a step relation, and the
-- counters that they implement.
use einvoice.Prelude.{
  ℕ, suc, ◌≤◌, ◌<◌, ◌≡◌, refl, ap, sym, subst, true, false, inl, inr, Option, none, some, List, [],
  ◌∷◌, Text, text_eq, eq_of_text_eq, ok, ok-injective, arith, Bool-cases, All, ◌∙◌,
}
use einvoice.InternalId.{InternalIdSchemeIssue, validate_internal_id_scheme}
use einvoice.Numbering.{
  Tenant, Allocated, NumberingView, UpsertInput, scope_key, scheme_or_default, find_row,
  allocate_next, peek_next, get, save_scheme, upsert,
}
use einvoice.Numbering.Rows.{used}
use einvoice.Numbering.Allocation.{allocate_next-IsAllocation}

-- A number that was given under a scope key.
pub record Issue : Type 0 where
  pub key : Text
  pub number : ℕ

-- The scope key that an allocation uses.
abbrev pub key_used : Tenant → Option Text → Option Text → Text
key_used t branch_id kind = (scope_key (scheme_or_default t.scheme).scope branch_id kind).key

-- A call of the service, or a change of the tenant's documents by other code, with the number that
-- is given.
pub data Step : Tenant → Option Issue → Tenant → Type 0 where
  allocates :
      {t t' : Tenant} (branch_id kind : Option Text) (a : Allocated)
      → allocate_next t branch_id kind ≡ ok (t', a)
      → Step t (some (record { key = key_used t branch_id kind; number = a.sequence_number })) t'
  previews :
      (t : Tenant) (branch_id kind : Option Text) → Step t none ((peek_next t branch_id kind).0)
  reads : (t : Tenant) → Step t none ((get t).0)
  upserts :
      {t t' : Tenant} (input : UpsertInput) (view : NumberingView)
      → upsert t input ≡ ok (t', view)
      → Step t none t'
  documents_change : (t : Tenant) (ids : List Text) → Step t none (record t { internal_ids = ids })

-- The abstract view: for each scope key, one past the last number (0 before the first).
abbrev pub Counter : Type 0
Counter = Text → ℕ

abbrev pub counter : Tenant → Counter
counter t key = used (find_row t.sequences key)

-- What counters promise: a number is given that is not below the counter of its key, which then
-- stands one past it, and no other counter moves.
pub data Counts : Counter → Option Issue → Counter → Type 0 where
  idle : {c c' : Counter} → ((k : Text) → c' k ≡ c k) → Counts c none c'
  gives_number :
      {c c' : Counter} (i : Issue)
      → c i.key ≤ i.number
      → c' i.key ≡ suc i.number
      → ((k : Text) → text_eq i.key k ≡ false → c' k ≡ c k)
      → Counts c (some i) c'

save_scheme-counter :
    (t t' : Tenant) (input : UpsertInput) (view : NumberingView)
    (issues : List InternalIdSchemeIssue)
    → save_scheme t input issues ≡ ok (t', view)
    → (k : Text) → counter t' k ≡ counter t k
unfolding save_scheme get
save_scheme-counter t t' input view (i ∷ is) h k = cc
save_scheme-counter t t' input view [] h k = ap (λ p. counter (p.0) k) (sym (ok-injective h))

upsert-counter :
    (t t' : Tenant) (input : UpsertInput) (view : NumberingView)
    → upsert t input ≡ ok (t', view)
    → (k : Text) → counter t' k ≡ counter t k
unfolding upsert
upsert-counter t t' input view h k =
    save_scheme-counter t t' input view (validate_internal_id_scheme input.checked) h k

-- Every step of the service, and every change of the documents, is a step of the counters: an
-- allocation gives a number that is not below the counter of its key and leaves the counter one past
-- it; every other step gives no number; and no other counter moves.
pub Step-Counts :
    {t t' : Tenant} {o : Option Issue} → Step t o t' → Counts (counter t) o (counter t')
unfolding get peek_next
Step-Counts (allocates {t} {t'} branch_id kind a h) =
    let r = allocate_next-IsAllocation t t' branch_id kind a h in
    gives_number _ r.above r.recorded (λ k e. ap used (r.others k e))
Step-Counts (previews t branch_id kind) = idle λ k. refl
Step-Counts (reads t) = idle λ k. refl
Step-Counts (upserts {t} {t'} input view h) = idle (upsert-counter t t' input view h)
Step-Counts (documents_change t ids) = idle λ k. refl

-- A history: its numbers, the first one first.
pub data History : Tenant → List Issue → Tenant → Type 0 where
  empty : (t : Tenant) → History t [] t
  silent :
      {t t' t'' : Tenant} {is : List Issue} → Step t none t' → History t' is t'' → History t is t''
  giving :
      {t t' t'' : Tenant} {i : Issue} {is : List Issue}
      → Step t (some i) t'
      → History t' is t''
      → History t (i ∷ is) t''

-- Under one key the numbers grow.
abbrev pub IsBefore : Issue → Issue → Type 0
IsBefore i j = text_eq i.key j.key ≡ true → i.number < j.number

abbrev pub IsIncreasing : List Issue → Type 0
IsIncreasing [] = Unit
IsIncreasing (i ∷ is) = All (IsBefore i) is × IsIncreasing is

-- A number that is not below the counter of its key.
abbrev FromCounter : Counter → Issue → Type 0
FromCounter c j = c j.key ≤ j.number

All-map :
    {A : Type 0} {P Q : A → Type 0} (xs : List A) → ((x : A) → P x → Q x) → All P xs → All Q xs
All-map [] f h = tt
All-map (x ∷ xs) f (p, h) = (f x p, All-map xs f h)

idle-FromCounter :
    {c c' : Counter} (j : Issue) → Counts c none c' → FromCounter c' j → FromCounter c j
idle-FromCounter j (idle same) h = rw (← same j.key) h

giving-FromCounter :
    {c c' : Counter} {i : Issue} (j : Issue)
    → Counts c (some i) c'
    → FromCounter c' j
    → FromCounter c j × IsBefore i j
giving-FromCounter {c} {c'} j (gives_number i low next others) h =
    elim (Bool-cases (text_eq i.key j.key)) [
      | inl e ↦
          let key = eq_of_text_eq i.key j.key e in
          let at = subst (λ k. c' k ≡ suc i.number) key next in
          let from = subst (λ k. c k ≤ i.number) key low in (omega arith, λ _. omega arith)
      | inr e ↦ (rw (← others j.key e) h, λ e'. let x = sym e ∙ e' in cc)
    ]

giving-own : {c c' : Counter} {i : Issue} → Counts c (some i) c' → FromCounter c i
giving-own (gives_number i low next others) = low

History-All :
    {t t' : Tenant} (is : List Issue)
    → History t is t'
    → All (FromCounter (counter t)) is × IsIncreasing is
History-All [] (empty t) = (tt, tt)
History-All is (silent step rest) =
    let (from, increasing) = History-All is rest in
    (All-map is (λ j. idle-FromCounter j (Step-Counts step)) from, increasing)
History-All (i ∷ is) (giving step rest) =
    let (from, increasing) = History-All is rest in
    let later = All-map is (λ j. giving-FromCounter j (Step-Counts step)) from in
    (
      (giving-own (Step-Counts step), All-map is (λ j p. p.0) later),
      (All-map is (λ j p. p.1) later, increasing),
    )

-- In every history of a tenant (allocations for any branches and kinds, previews, changes of the
-- scheme and of the documents, in any order), the numbers given under one scope key grow, so that
-- none is given twice.
pub History-IsIncreasing : (t t' : Tenant) (is : List Issue) → History t is t' → IsIncreasing is
History-IsIncreasing t t' is h = (History-All is h).1
