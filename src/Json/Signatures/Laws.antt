-- ===== src/Json/Signatures/Laws.antt =====
-- What packages/eta-core/src/eta-payload.ts keeps of a document when signatures come and go.
use einvoice.Prelude.{
  ◌≡◌, refl, ◌∙◌, ap, sym, false, none, some, List, Text, text_eq, text_eq_iff, text_eq_self,
  Unicode, arith, if◌then◌else◌, Bool-cases, inl, inr, ◌||◌,
}
use einvoice.Money.{Numerics}
use einvoice.Json.{Json, arr, Fields, end, field, get_field, set_field, has_key, IsObject, items}
use einvoice.Json.Objects.{get_field-set_field, set_field-IsObject}
use einvoice.Json.Canonical.{canonical_serialize}
use einvoice.Json.Signatures.{
  signatures_key, strip_loop, strip_signatures, attach_signatures, canonical_without_signatures,
}

module _ {N : Type 0} where
  abbrev append_fields : Fields N → Fields N → Fields N
  append_fields end gs = gs
  append_fields (field k v fs) gs = field k v (append_fields fs gs)

  -- The fields but for those with one key.
  abbrev without : Text → Fields N → Fields N
  without k end = end
  without k (field j v fs) = if text_eq j k then without k fs else field j v (without k fs)

  set_field-absent :
      (fs : Fields N) (k : Text) (v : Json N)
      → has_key fs k ≡ false
      → set_field fs k v ≡ append_fields fs (field k v end)
  unfolding set_field
  set_field-absent end k v h = refl
  set_field-absent (field j w fs) k v h = ground (arith, set_field-absent fs k v)

  append_fields_assoc :
      (fs : Fields N) (k : Text) (v : Json N) (gs : Fields N)
      → append_fields (append_fields fs (field k v end)) gs ≡ append_fields fs (field k v gs)
  append_fields_assoc end k v gs = refl
  append_fields_assoc (field j w fs) k v gs = ap (field j w) (append_fields_assoc fs k v gs)

  append_fields-end : (fs : Fields N) → append_fields fs end ≡ fs
  append_fields-end end = refl
  append_fields-end (field j w fs) = ap (field j w) (append_fields-end fs)

  -- No key of `fs` is one of `out`.
  abbrev Apart : Fields N → Fields N → Type 0
  Apart out end = Unit
  Apart out (field k v fs) = (has_key out k ≡ false) × Apart out fs

  has_key-append :
      (out : Fields N) (k : Text) (v : Json N) (j : Text)
      → has_key (append_fields out (field k v end)) j ≡ (has_key out j || text_eq k j)
  has_key-append end k v j = ground arith
  has_key-append (field i w fs) k v j = ground (arith, has_key-append fs k v j)

  Apart-append :
      (out : Fields N) (k : Text) (v : Json N) (fs : Fields N)
      → Apart out fs
      → has_key fs k ≡ false
      → Apart (append_fields out (field k v end)) fs
  Apart-append out k v end a h = tt
  Apart-append out k v (field j w fs) (p, a) h = (
    ground (arith, has_key-append out k v j, text_eq_iff j k, text_eq_iff k j),
    Apart-append out k v fs a (ground arith),
  )

  strip_loop-without :
      (out fs : Fields N)
      → IsObject fs
      → Apart out fs
      → strip_loop out fs ≡ append_fields out (without signatures_key fs)
  unfolding strip_loop
  strip_loop-without out end o a = sym (append_fields-end out)
  strip_loop-without out (field k v fs) (p, o) (q, a) =
      elim (Bool-cases (text_eq k signatures_key)) [
        | inl e ↦ rw e (strip_loop-without out fs o a)
        | inr e ↦ rw e (
            rw (set_field-absent out k v q) (
              strip_loop-without (append_fields out (field k v end)) fs o
                (Apart-append out k v fs a p)
              ∙ append_fields_assoc out k v (without signatures_key fs)))
      ]

  Apart-end : (fs : Fields N) → Apart end fs
  Apart-end end = tt
  Apart-end (field k v fs) = (refl, Apart-end fs)

  strip-without : (fs : Fields N) → IsObject fs → strip_signatures fs ≡ without signatures_key fs
  unfolding strip_signatures
  strip-without fs o = strip_loop-without end fs o (Apart-end fs)

  without-set_field :
      (k : Text) (fs : Fields N) (v : Json N) → without k (set_field fs k v) ≡ without k fs
  unfolding set_field
  without-set_field k end v = ground (arith, text_eq_self k)
  without-set_field k (field j w fs) v = ground (arith, without-set_field k fs v)

  without_idem : (k : Text) (fs : Fields N) → without k (without k fs) ≡ without k fs
  without_idem k end = refl
  without_idem k (field j w fs) = ground (arith, without_idem k fs)

  has_key-without :
      (k j : Text) (fs : Fields N) → has_key fs j ≡ false → has_key (without k fs) j ≡ false
  has_key-without k j end h = refl
  has_key-without k j (field i w fs) h = ground (arith, has_key-without k j fs)

  without-IsObject : (k : Text) (fs : Fields N) → IsObject fs → IsObject (without k fs)
  without-IsObject k end o = tt
  without-IsObject k (field j w fs) (p, o) =
      ground (arith, without-IsObject k fs o, has_key-without k j fs p)

  get_field-without :
      (k j : Text) (fs : Fields N)
      → get_field (without k fs) j ≡ (if text_eq k j then none else get_field fs j)
  unfolding get_field
  get_field-without k j end = ground arith
  get_field-without k j (field i w fs) =
      ground (arith, text_eq_iff k j, text_eq_iff i k, text_eq_iff i j, get_field-without k j fs)

  strip-attach :
      (fs : Fields N) (s : List (Json N))
      → IsObject fs
      → strip_signatures (attach_signatures fs s) ≡ strip_signatures fs
  unfolding attach_signatures
  strip-attach fs s o =
      strip-without _ (
        set_field-IsObject (strip_signatures fs) signatures_key (arr (items s))
          (rw (strip-without fs o) (without-IsObject signatures_key fs o)))
      ∙ without-set_field signatures_key (strip_signatures fs) (arr (items s))
      ∙ rw (strip-without fs o) (without_idem signatures_key fs)

  -- On a document whose keys are different, attaching signatures sets that one field, replaces
  -- those that the document has, and keeps every other field with its value.
  pub get_field-attach_signatures :
      (document : Fields N) (signatures : List (Json N)) (k : Text)
      → IsObject document
      → get_field (attach_signatures document signatures) k
        ≡ (if text_eq signatures_key k then some (arr (items signatures)) else get_field document k)
  unfolding attach_signatures
  get_field-attach_signatures fs s k o =
      get_field-set_field (strip_signatures fs) signatures_key k (arr (items s))
      ∙ rw (strip-without fs o) (ground (arith, get_field-without signatures_key k fs))

  -- On a document whose keys are different, attaching signatures twice is attaching the last ones.
  attach-attach :
      (document : Fields N) (first second : List (Json N))
      → IsObject document
      → attach_signatures (attach_signatures document first) second
        ≡ attach_signatures document second
  unfolding attach_signatures
  attach-attach fs a b o =
      ap (λ g. set_field g signatures_key (arr (items b))) (strip-attach fs a o)

module _ ⦃u : Unicode⦄ ⦃n : Numerics⦄ where
  -- The text whose digest is signed does not change when signatures are attached to the document,
  -- whose keys are different.
  pub canonical-attach_signatures :
      (document : Fields n.Double) (signatures : List (Json n.Double))
      → IsObject document
      → canonical_without_signatures (attach_signatures document signatures)
        ≡ canonical_without_signatures document
  unfolding canonical_without_signatures
  canonical-attach_signatures fs s o = ap canonical_serialize (strip-attach fs s o)
