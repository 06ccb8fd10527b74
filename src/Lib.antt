-- ===== src/Lib.antt =====
-- eInvoice prepares electronic invoices and receipts for the Egyptian Tax Authority (ETA): it
-- computes the totals of lines and documents, builds and validates the payload of a document,
-- writes the canonical text that is signed, stamps receipts with their uuid, splits them into
-- submissions, and numbers documents. This library models that code, which stands in packages/eta-
-- core/src, with the decision logic of apps/api/src that works on the same data.
--
-- The files and the code they model:
--
--   * Money: packages/eta-core/src/money.ts; the amounts are decimal strings. decimal.js and the
--     JavaScript doubles are the record Numerics, an instance argument, whose laws are documented
--     behaviour; Money/Exact has a small concrete one with four fractional digits.
--   * Tax: packages/eta-core/src/tax-modes.ts; the modes of a line, the classes and the directions
--     of tax types, the check for duplicates.
--   * Totals: packages/eta-core/src/calculate-totals.ts; Totals itself has estimateEtaItemTotal
--     and computeTaxAmounts, Totals/Line has calculateLine, Totals/Document has
--     calculateDocumentTotals, Totals/Maps the JavaScript Map.
--   * Json: packages/eta-core/src/canonical-serialize.ts (Json/Canonical) and eta-payload.ts
--     (Json/Signatures), over JSON values whose fields keep their order.
--   * Receipts: packages/eta-core/src/receipts; receipt-sha256.ts (Sha256), receipt-uuid.ts and
--     receipt-canonical.ts (Uuid), receipt-batch-signature.ts (Batch), receipt-totals.ts (Totals),
--     types.ts (Types), receipt-builder.ts (Builder has the items, Builder/Receipt the receipt),
--     receipt-validator.ts (Validator has the issues, Validator/Header and Validator/Lines the
--     checks of the parts, Validator/Recomputed has validateReceipt).
--   * Receiver: packages/eta-core/src/receiver.ts; the receiver of a document, from whatever
--     source (Receiver/Spelling has the spellings of its type). The lookup of an alias also finds
--     what every object inherits, under the names constructor and __proto__: the function Object,
--     a constructor of Json that no JSON text gives, and the prototype of all objects, which is an
--     object with no fields.
--   * Formats: packages/eta-core/src/eta-formats.ts; the time of issue and the decimals of a
--     payload. The parsing and printing of dates is the record Dates, an instance argument.
--   * Builder: packages/eta-core/src/builders/document.ts; Builder itself has the lines,
--     Builder/Document the payload. Builder/Sample is a document of one line.
--   * Validation: packages/eta-core/src/local-validator.ts; Validation itself has the issues and
--     the tests of fields, Validation/Totals has checkEtaTotals, Validation/Items the checks of
--     the entered lines, Validation/Document has validateDocument.
--   * Intake: packages/eta-core/src/eta-intake-error.ts; errors as text and the redaction of logs.
--     JSON.parse and JSON.stringify are the record JsonText, an instance argument.
--   * Received: packages/eta-core/src/received-classify.ts; the documents that a taxpayer
--     received.
--   * Submissions: apps/api/src/submissions/submission-202-result-map.ts (ResultMap; the answer of
--     ETA to a submission, joined with the rows of the batch by their internal ids) and
--     verifyPayloadInternalIds of submission-integrity.ts (Integrity).
--   * InternalId: packages/eta-core/src/internal-id.ts; the ids of documents and the check of a
--     numbering scheme.
--   * Numbering: apps/api/src/settings/invoice-numbering/invoice-numbering.service.ts; the rows of
--     one tenant are explicit state, and each method is one transaction.
--   * Issuer: packages/eta-core/src/issuer-address.ts and issuer-identity.ts; the issuer of a
--     document, from the settings and the overrides.
--   * Guards: decisions of apps/api/src on requests; submissions/submit-cooldown.ts and sync/sync-
--     lock.ts (Cooldown), documents/documents-mutability.ts (Mutability), rbac/role-policy.ts
--     (RolePolicy).
--   * Prelude: what the others share; Boolean tests, lists, integers, the outcome of code that may
--     throw (Result), and JavaScript strings as lists of code points.
--
-- How the parts interact: a line of a receipt is turned into a line of an invoice and computed by
-- calculateLine; document totals are computed from the computed lines; buildDocumentPayload writes
-- both as JSON numbers, with the receiver that etaReceiverForDocument returns, and
-- validateDocument reads them back and recomputes the totals; buildReceipt stamps the receipt that
-- it builds; the uuid of a receipt is the SHA-256 digest of its canonical text with an empty uuid;
-- allocateNext formats its numbers by formatInternalId and checks them by isValidEtaInternalId,
-- and upsert stores a scheme that validateInternalIdScheme accepts.
--
-- Conventions: an object of the model has no own key __proto__, which an assignment would not
-- create. A function that may throw returns a Result, and a thrown error of a transaction carries
-- no state. Amounts that are inputs are texts; the theorems on sums take amounts in whole cents
-- whose sizes add up to less than 10^40, since decimal.js keeps 40 significant digits and two of
-- them are fractional; those on payloads take less than 10^15 cents, since a double holds 15
-- significant digits. A 32-bit word is kept unsigned. Upper and lower case beyond ASCII are the
-- record Unicode, an instance argument. Recursion is structural, save for two: digits of a number
-- runs on fuel above the number, and halveUntilFits on the length of the chunk, which each half
-- undercuts. allocateNext has 25 attempts, as the code has.
--
-- Not modelled: the display of amounts, JSON.parse and JSON.stringify of whole documents, the
-- advice on late submissions, the catalogue of tax codes, the signing of digests, the HTTP
-- services, queues and database access of apps/api, the web client, and the signing agents.
pub mod Prelude
pub mod Money
pub mod Tax
pub mod Totals
pub mod Json
pub mod Receipts
pub mod InternalId
pub mod Numbering
pub mod Issuer
pub mod Guards
pub mod Receiver
pub mod Formats
pub mod Builder
pub mod Validation
pub mod Intake
pub mod Received
pub mod Submissions
