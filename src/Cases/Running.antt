-- ===== src/Cases/Running.antt =====
-- `TestRun` of cases.hpp, over a case that has forked.
