-- ===== src/Voice/Audio/Newest.antt =====
-- The ring buffer holds the newest chunks that fit.
use mathlib.Core.List.{append_assoc, append-nil}
use bosimao_release.Prelude.{
  ℕ, suc, ◌+◌, ◌-◌, ◌≤◌, ◌≡◌, refl, sym, ap, ◌∙◌, List, [], ◌∷◌, ◌++◌, arith, length, Bool, true,
  false, inl, inr, Bool-cases, ltb, if◌then◌else◌, keep,
}
use bosimao_release.RtcBridge.Queue.{Bytes}
use bosimao_release.Voice.Audio.{PcmRingBuffer, trim, append, append_all}

abbrev pub total_bytes : List Bytes → ℕ
total_bytes [] = 0
total_bytes (c ∷ cs) = length c + total_bytes cs

-- The longest run of chunks at the end that fits.
abbrev pub newest : ℕ → List Bytes → List Bytes
newest limit [] = []
newest limit (c ∷ cs) = if ltb limit (total_bytes (c ∷ cs)) then newest limit cs else c ∷ cs

abbrev pub is_full : Bytes → Bool
is_full [] = false
is_full (x ∷ bs) = true

pub record IsSound (b : PcmRingBuffer) : Type 0 where
  pub counted : b.total ≡ total_bytes b.chunks
  pub bounded : b.total ≤ b.max_bytes

total-append : (xs ys : List Bytes) → total_bytes (xs ++ ys) ≡ total_bytes xs + total_bytes ys
total-append [] ys = omega arith
total-append (x ∷ xs) ys = omega (arith, total-append xs ys)

trim-newest :
    (limit : ℕ) (cs : List Bytes) (t : ℕ)
    → t ≡ total_bytes cs
    → (trim limit cs t ≡ (newest limit cs, total_bytes (newest limit cs)))
      × (total_bytes (newest limit cs) ≤ limit)
unfolding trim
trim-newest limit [] t e = (ground arith, omega arith)
trim-newest limit (c ∷ cs) t e =
    let (same, fits) = trim-newest limit cs (t - length c) (omega arith) in
    rw e (ground (arith, (rw (e) at same), fits))

newest-newest :
    (limit : ℕ) (xs ys : List Bytes)
    → newest limit (newest limit xs ++ ys) ≡ newest limit (xs ++ ys)
newest-newest limit [] ys = refl
newest-newest limit (x ∷ xs) ys = elim (Bool-cases (ltb limit (total_bytes (x ∷ xs)))) [
  | inl over ↦
      let more : ltb limit (length x + total_bytes (xs ++ ys)) ≡ true =
        ground (arith, total-append xs ys) in
      rw (over, more) (newest-newest limit xs ys)
  | inr fits ↦ rw fits refl
]

newest_fits : (limit : ℕ) (xs : List Bytes) → total_bytes xs ≤ limit → newest limit xs ≡ xs
newest_fits limit [] h = refl
newest_fits limit (x ∷ xs) h = ground arith

kept_all : (b : PcmRingBuffer) → IsSound b → b.chunks ≡ newest b.max_bytes (b.chunks ++ [])
kept_all b h =
    rw (append-nil b.chunks)
      (sym (newest_fits b.max_bytes b.chunks (omega (arith, h.counted, h.bounded))))

keep_each :
    (xs : List Bytes) (c : Bytes) (cs : List Bytes)
    → (xs ++ keep is_full (c ∷ [])) ++ keep is_full cs ≡ xs ++ keep is_full (c ∷ cs)
keep_each xs [] cs = rw (append-nil xs) refl
keep_each xs (x ∷ bs) cs = append_assoc xs ((x ∷ bs) ∷ []) (keep is_full cs)

append-newest :
    (c : Bytes) (b : PcmRingBuffer)
    → IsSound b
    → IsSound (append c b)
      × ((append c b).chunks ≡ newest b.max_bytes (b.chunks ++ keep is_full (c ∷ [])))
      × ((append c b).max_bytes ≡ b.max_bytes)
unfolding append
append-newest [] b h = (h, kept_all b h, refl)
append-newest (x ∷ bs) b h =
    let (same, fits) =
      trim-newest b.max_bytes (b.chunks ++ ((x ∷ bs) ∷ [])) (b.total + suc (length bs))
        (omega (arith, h.counted, total-append b.chunks ((x ∷ bs) ∷ []))) in
    (
      record { counted = rw (same) refl; bounded = rw (same) fits },
      ap (λ (p : List Bytes × ℕ). p.0) same,
      refl,
    )

pub append-IsSound : (c : Bytes) (b : PcmRingBuffer) → IsSound b → IsSound (append c b)
append-IsSound c b h = (append-newest c b h).0

-- A buffer whose count is right and within its limit keeps both whatever chunks are appended, and
-- holds then the longest run of the newest chunks that are not empty which fits in the limit.
pub append_all-newest :
    (cs : List Bytes) (b : PcmRingBuffer)
    → IsSound b
    → IsSound (append_all cs b)
      × ((append_all cs b).chunks ≡ newest b.max_bytes (b.chunks ++ keep is_full cs))
append_all-newest [] b h = (h, kept_all b h)
append_all-newest (c ∷ cs) b h =
    let (sound, chunks, limit) = append-newest c b h in
    let (sound', chunks') = append_all-newest cs (append c b) sound in
    (
      sound',
      chunks'
          ∙ (rw (limit, chunks)
              (newest-newest b.max_bytes (b.chunks ++ keep is_full (c ∷ [])) (keep is_full cs)))
          ∙ ap (newest b.max_bytes) (keep_each b.chunks c cs),
    )
