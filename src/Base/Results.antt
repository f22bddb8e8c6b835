-- ===== src/Base/Results.antt =====
-- Calls that may abort: a failed `assert` or `expect` reverts the call.
use mathlib.Core.Bool.{Bool, true, false}
use mathlib.Core.Option.{Option, none, some}

pub data Result (E A : Type 0) : Type 0 where
  ok : A → Result E A
  abort : E → Result E A

module _ {E : Type 0} where
  -- `assert(condition, message)`
  abbrev pub assert : Bool → E → Result E (Unit {0})
  assert true message = ok tt
  assert false message = abort message

  module _ {A : Type 0} where
    -- `result.expect(message)`
    abbrev pub expect : Option A → E → Result E A
    expect none message = abort message
    expect (some a) message = ok a

-- One step after another: the first that aborts gives its message.
infixl 5 ◌>>=◌ ◌>>◌
abbrev pub ◌>>=◌ : {E A B : Type 0} → Result E A → (A → Result E B) → Result E B
abort message >>= rest = abort message
ok a >>= rest = rest a

abbrev pub ◌>>◌ : {E A : Type 0} → Result E (Unit {0}) → Result E A → Result E A
check >> rest = check >>= λ _. rest
