-- ===== src/Engine/Outcome.antt =====
-- What a call of the main thread comes to, where it waits for another thread or follows a pointer.
pub data Outcome (A : Type 0) : Type 0 where
  done : A → Outcome A
  -- It waits for a thread that will not answer.
  waits : Outcome A
  -- It follows a pointer to an object that has been destroyed, or a null one.
  dangling : Outcome A
  -- The fuel ran out.
  no_fuel : Outcome A

infixl 5 ◌>>=◌
abbrev pub ◌>>=◌ : {A B : Type 0} → Outcome A → (A → Outcome B) → Outcome B
done a >>= f = f a
waits >>= f = waits
dangling >>= f = dangling
no_fuel >>= f = no_fuel
