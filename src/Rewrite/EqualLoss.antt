-- ===== src/Rewrite/EqualLoss.antt =====
-- Constants of one value with two spellings, of which the case `NT_EQ` of the rewriter says that
-- they differ.
