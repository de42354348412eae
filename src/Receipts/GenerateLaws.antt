-- ===== src/Receipts/GenerateLaws.antt =====
-- src/receipts/generate-receipt.ts and src/api/services/get-receipt.ts: the receipt that is handed out
-- is the one that was generated.
