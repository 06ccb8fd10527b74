-- ===== src/Receipts/Batch.antt =====
-- packages/eta-core/src/receipts/receipt-batch-signature.ts: the signatures of a submission and
-- the split of a batch into submissions.
--
-- The signer of the certificate and `JSON.stringify` are parameters.
pub mod Splitting
use einvoice.Prelude.{
  ℕ, zero, suc, ◌+◌, ◌/◌, Bool, true, false, not, ◌&&◌, ◌||◌, Option, none, some, List, [], ◌∷◌,
  ◌++◌, Text, length, take, drop, join, leb, if◌then◌else◌, Unicode, Result, ok, thrown, ◌>>=◌,
}
use einvoice.Money.{Numerics}
use einvoice.Json.{Items}
use einvoice.Receipts.Sha256.{utf8, sha256_hex}
use einvoice.Receipts.Uuid.{canonical_serialize_receipt_batch}

pub data SignatureType : Type 0 where
  issuer : SignatureType
  service_provider : SignatureType

pub record Signature : Type 0 where
  pub signature_type : SignatureType
  pub value : Text

pub data SigningError : Type 0 where
  receipt_signature_required : SigningError

-- The signer takes the digest in hexadecimal.
pub record SignatureOptions : Type 0 where
  pub require_signature : Bool
  pub signer : Option (Text → Text)

pub record BatchHash : Type 0 where
  pub canonical : Text
  pub digest_hex : Text

pub record Signatures : Type 0 where
  pub signatures : List Signature
  pub canonical : Text
  pub digest_hex : Text
  pub signed : Bool

abbrev pub placeholder_issuer_signature : Signature
placeholder_issuer_signature = record { signature_type = issuer; value = [] }

module _ ⦃u : Unicode⦄ ⦃n : Numerics⦄ where
  pub record SubmitBody : Type 0 where
    pub receipts : Items n.Double
    pub built : Signatures

  unfoldable pub hash_receipt_batch : Items n.Double → BatchHash
  hash_receipt_batch receipts =
      let canonical = canonical_serialize_receipt_batch receipts in
      record { canonical = canonical; digest_hex = sha256_hex canonical }

  unfoldable pub sign_hash : BatchHash → SignatureOptions → Result SigningError Signatures
  sign_hash h opts = elim opts.signer [
    | some sign_digest ↦ ok (record {
      signatures = record { signature_type = issuer; value = sign_digest h.digest_hex } ∷ [];
      canonical = h.canonical;
      digest_hex = h.digest_hex;
      signed = true;
    })
    | none ↦
        if opts.require_signature
        then thrown receipt_signature_required
        else ok (record {
          signatures = placeholder_issuer_signature ∷ [];
          canonical = h.canonical;
          digest_hex = h.digest_hex;
          signed = false;
        })
  ]

  unfoldable pub build_receipt_signatures :
      Items n.Double → SignatureOptions → Result SigningError Signatures
  unfolding sign_hash
  build_receipt_signatures receipts opts = sign_hash (hash_receipt_batch receipts) opts

  unfoldable pub build_receipt_submit_body :
      Items n.Double → SignatureOptions → Result SigningError SubmitBody
  build_receipt_submit_body receipts opts = do
    built ← build_receipt_signatures receipts opts
    ok (record { receipts = receipts; built = built })

abbrev eta_receipt_max_per_submission : ℕ
eta_receipt_max_per_submission = 500

abbrev eta_receipt_max_bytes : ℕ
eta_receipt_max_bytes = 1500000

pub record SplitOptions (A : Type 0) : Type 0 where
  pub max_count : Option ℕ
  pub max_bytes : Option ℕ
  pub serialize : Option (List A → Text)

abbrev or_default : {B : Type 0} → Option B → B → B
or_default none d = d
or_default (some b) d = b

module _ {A : Type 0} where
  -- `stringify` is `JSON.stringify` of the chunk with its placeholder signature.
  unfoldable pub fits : (List A → Text) → SplitOptions A → List A → Bool
  fits stringify opts chunk =
      leb (length chunk) (or_default opts.max_count eta_receipt_max_per_submission)
      && leb (length (utf8 (or_default opts.serialize stringify chunk)))
          (or_default opts.max_bytes eta_receipt_max_bytes)

  abbrev pub is_empty : List A → Bool
  is_empty [] = true
  is_empty (x ∷ xs) = false

  -- The loop over the rows, with `out` and `current`, and the push of the last chunk.
  unfoldable pub pack : (List A → Bool) → List A → List (List A) → List A → List (List A)
  pack ok_chunk [] out current = if is_empty current then out else out ++ current ∷ []
  pack ok_chunk (row ∷ rows) out current =
      elim (not (is_empty current) && not (ok_chunk (current ++ row ∷ []))) [
        | true ↦ pack ok_chunk rows (out ++ current ∷ []) (row ∷ [])
        | false ↦ pack ok_chunk rows out (current ++ row ∷ [])
      ]

  -- Each half is shorter than the chunk, so that its length is fuel enough.
  unfoldable pub halve_until_fits : ℕ → (List A → Bool) → List A → List (List A)
  halve_until_fits zero ok_chunk chunk = chunk ∷ []
  halve_until_fits (suc fuel) ok_chunk chunk = elim (leb (length chunk) 1 || ok_chunk chunk) [
    | true ↦ chunk ∷ []
    | false ↦
        let mid = (length chunk + 1) / 2 in
        halve_until_fits fuel ok_chunk (take mid chunk)
        ++ halve_until_fits fuel ok_chunk (drop mid chunk)
  ]

  unfoldable pub refine_chunks : (List A → Bool) → List (List A) → List (List A)
  refine_chunks ok_chunk [] = []
  refine_chunks ok_chunk (c ∷ cs) =
      halve_until_fits (length c) ok_chunk c ++ refine_chunks ok_chunk cs

  unfoldable pub split_receipt_batch : (List A → Text) → SplitOptions A → List A → List (List A)
  unfolding fits pack halve_until_fits refine_chunks
  split_receipt_batch stringify opts [] = []
  split_receipt_batch stringify opts (r ∷ []) = (r ∷ []) ∷ []
  split_receipt_batch stringify opts (r ∷ s ∷ rs) =
      refine_chunks (fits stringify opts) (pack (fits stringify opts) (r ∷ s ∷ rs) [] [])
