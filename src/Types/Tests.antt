-- ===== src/Types/Tests.antt =====
-- pydefi/_math.py: a run of `apply_slippage`.
