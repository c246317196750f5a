-- ===== src/Store/Guards.antt =====
-- The guards that run before a transaction of infrastructure/state_store.py.
use gemini_web_mcp.Common.{◌≡◌, refl, Outcome, returned, raised, arith}
use gemini_web_mcp.Store.Transactions.{StateStore}
use gemini_web_mcp.Store.Operations.{after}

pub after_returned :
    {A : Type 0} (o : Outcome (Unit {0})) (s : StateStore) (next : Outcome A × StateStore) (a : A)
    → (after o s next).0 ≡ returned a
    → after o s next ≡ next
after_returned (returned u) s next a h = refl
after_returned (raised e) s next a h = absurd (ground arith)
