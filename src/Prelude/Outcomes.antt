-- ===== src/Prelude/Outcomes.antt =====
-- Calls that change a state and return, or raise and leave the state that they had reached.

pub data Outcome {ℓ} (S : Type ℓ) : Type ℓ where
  returned raised : S → Outcome S

module _ {ℓ} {S : Type ℓ} where
  abbrev pub and_then : Outcome S → (S → Outcome S) → Outcome S
  and_then (returned s) f = f s
  and_then (raised s) f = raised s

  abbrev pub after : Outcome S → S
  after (returned s) = s
  after (raised s) = s

  -- What each of two calls keeps, the one after the other keeps.
  pub after-and_then {κ} :
      (P : S → Type κ) (o : Outcome S) (f : S → Outcome S)
      → P (after o)
      → ((s : S) → P s → P (after (f s)))
      → P (after (and_then o f))
  after-and_then P (returned s) f h k = k s h
  after-and_then P (raised s) f h k = h
