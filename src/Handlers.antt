-- ===== src/Handlers.antt =====
-- The handlers of events, as the calls that they make in their order; `E` is the type of the calls.
use revchat.Base.{Bool, false, ◌||◌, List, [], ◌∷◌, ◌++◌}

-- The calls of a handler, and whether it returns an error.
pub record Outcome (E : Type 0) : Type 0 where
  pub effects : List E
  pub failed : Bool

module _ {E : Type 0} where
  abbrev pub nothing : Outcome E
  nothing = record { effects = []; failed = false }

  -- One part of a handler after another; the errors are joined.
  infixr 5 ◌then_do◌
  abbrev pub ◌then_do◌ : Outcome E → Outcome E → Outcome E
  ◌then_do◌ a b = record { effects = a.effects ++ b.effects; failed = a.failed || b.failed }

  -- A call whose error is dropped, and one whose error is returned.
  abbrev pub call : E → Outcome E
  call e = record { effects = e ∷ []; failed = false }

  abbrev pub checked_call : (E → Bool) → E → Outcome E
  checked_call fails e = record { effects = e ∷ []; failed = fails e }
