-- ===== src/Deposit/Holds.antt =====
-- Items that the acceptance point never pays at once (`handleAcceptance` of
-- lib/machine-events/acceptance.ts).
use re_loop.Deposit.Acceptance.{Acceptance}
