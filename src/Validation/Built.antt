-- ===== src/Validation/Built.antt =====
-- `validateDocument` of packages/eta-core/src/local-validator.ts on the documents that
-- `buildDocumentPayload` of packages/eta-core/src/builders/document.ts builds.
