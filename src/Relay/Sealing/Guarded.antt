-- ===== src/Relay/Sealing/Guarded.antt =====
-- No sequence number passes the guard twice.
use bosimao_release.Prelude.{
  ℕ, ◌≡◌, ◌<◌, String, false, Option, none, some, List, [], ◌∷◌, ◌=ₛ◌, arith, inl, inr, Bool-cases,
  if◌then◌else◌, subst,
}
use bosimao_release.Relay.Sealing.{Guard, last_of, set_last, is_replay, check, passed}

-- Numbers that grow, from above a bound if there is one.
abbrev pub IsAbove : Option ℕ → ℕ → Type 0
IsAbove none n = Unit
IsAbove (some b) n = b < n

abbrev pub Grows : Option ℕ → List ℕ → Type 0
Grows b [] = Unit
Grows b (n ∷ ns) = IsAbove b n × Grows (some n) ns

last-set :
    (d d' : String) (seq : ℕ) (g : Guard)
    → last_of d (set_last d' seq g) ≡ (if d' =ₛ d then some seq else last_of d g)
last-set d d' seq [] = ground arith
last-set d d' seq (e ∷ g) = ground (arith, last-set d d' seq g)

above : (b : Option ℕ) (n : ℕ) → is_replay n b ≡ false → IsAbove b n
above none n e = tt
above (some b) n e = ground arith

-- However directions are interleaved, the sequence numbers that a direction passes from a guard grow
-- strictly, from above the number that this direction saw last: none passes twice or out of order.
pub passed-Grows :
    (d : String) (cs : List (String × ℕ)) (g : Guard) → Grows (last_of d g) (passed d cs g)
unfolding passed check
passed-Grows d [] g = tt
passed-Grows d (c ∷ cs) g = elim (Bool-cases (is_replay c.1 (last_of c.0 g))) [
  | inl old ↦ rw old (passed-Grows d cs g)
  | inr new ↦
      let more = passed-Grows d cs (set_last c.0 c.1 g) in
      elim (Bool-cases (c.0 =ₛ d)) [
        | inl same ↦
            let is_d : c.0 ≡ d = ground arith in
            rw (new, same)
              (
                subst (λ e. IsAbove (last_of e g) c.1) is_d (above (last_of c.0 g) c.1 new),
                rw (last-set d c.0 c.1 g, same) at more,
              )
        | inr other ↦ rw (new, other) (rw (last-set d c.0 c.1 g, other) at more)
      ]
]
