-- ===== src/Relay/Frames/Chunks.antt =====
-- The chunks of a payload, and the frames that are audio frames.
use bosimao_release.Prelude.{
  ℕ, zero, suc, ◌+◌, ◌*◌, ◌<◌, ◌≤◌, ◌≡◌, refl, List, [], ◌∷◌, arith, length, take, drop, All,
  length-drop, take-append-drop, ok, err, true, inl, inr, ◌↔◌, Bool-cases, List-cases, ap, ltb,
  ◌==◌,
}
use bosimao_release.RtcBridge.Frames.Cut.{join}
use bosimao_release.Relay.Frames.{
  Bytes, AudioChunk, too_short, bad_chunk_size, slices, chunk_payload, decode_audio_frame,
  is_audio_frame, from_big_endian, head_byte,
}

abbrev pub IsChunk : ℕ → Bytes → Type 0
IsChunk n chunk = (1 ≤ length chunk) × (length chunk ≤ n)

length-take-le : (n : ℕ) (xs : Bytes) → length (take n xs) ≤ n
length-take-le zero xs = omega arith
length-take-le (suc n) [] = omega arith
length-take-le (suc n) (x ∷ xs) = omega (arith, length-take-le n xs)

pub join-slices :
    (fuel n : ℕ) (xs : Bytes) → length xs ≤ fuel → 1 ≤ n → join (slices fuel n xs) ≡ xs
unfolding slices
join-slices zero n [] h p = refl
join-slices zero n (x ∷ xs) h p = absurd (omega arith)
join-slices (suc fuel) n [] h p = refl
join-slices (suc fuel) n (x ∷ xs) h p =
    rw (join-slices fuel n (drop n (x ∷ xs)) (omega (arith, length-drop n (x ∷ xs))) p)
      (take-append-drop n (x ∷ xs))

slices-IsChunk : (fuel n : ℕ) (xs : Bytes) → All (IsChunk (suc n)) (slices fuel (suc n) xs)
unfolding slices
slices-IsChunk zero n xs = tt
slices-IsChunk (suc fuel) n [] = tt
slices-IsChunk (suc fuel) n (x ∷ xs) =
    ((omega arith, omega (arith, length-take-le n xs)), slices-IsChunk fuel n (drop n xs))

slices-nil : (fuel n : ℕ) → slices fuel (suc n) [] ≡ []
unfolding slices
slices-nil zero n = refl
slices-nil (suc fuel) n = refl

count-slices :
    (fuel n : ℕ) (xs : Bytes)
    → length xs ≤ fuel
    → suc n * length (slices fuel (suc n) xs) ≤ length xs + n
unfolding slices
count-slices zero n xs h = omega arith
count-slices (suc fuel) n [] h = omega arith
count-slices (suc fuel) n (x ∷ xs) h = elim (List-cases (drop n xs)) [
  | inl e ↦ rw (e, slices-nil fuel n) (omega (arith, length-drop n xs))
  | inr (y, ys, e) ↦ omega (
    arith,
    count-slices fuel n (drop n xs) (omega (arith, length-drop n xs)),
    length-drop n xs,
    ap length e,
  )
]

-- A payload that is cut into chunks of a positive size is their concatenation, each
-- chunk has a byte at least and the size at most, and there are as few of them as this size
-- allows; a size of zero is refused.
pub chunk_payload-join :
    (payload : Bytes) (n : ℕ)
    → (chunk_payload payload zero ≡ err bad_chunk_size)
      × (cs : List Bytes) × (chunk_payload payload (suc n) ≡ ok cs)
      × (join cs ≡ payload)
      × All (IsChunk (suc n)) cs
      × (suc n * length cs ≤ length payload + n)
unfolding chunk_payload
chunk_payload-join payload n =
    let cs = slices (length payload) (suc n) payload in
    (
      refl,
      cs,
      ground arith,
      join-slices (length payload) (suc n) payload (omega arith) (omega arith),
      slices-IsChunk (length payload) n payload,
      count-slices (length payload) n payload (omega arith),
    )

abbrev chunk_of : Bytes → AudioChunk
chunk_of frame = record {
  seq = from_big_endian (take 4 (drop 1 frame));
  ts_ms = from_big_endian (take 8 (drop 5 frame));
  payload = drop 13 frame;
}

-- A frame is decoded exactly when it passes as an audio frame, and it is refused as too short
-- exactly when it is shorter than the header.
pub decode_exactly :
    (frame : Bytes)
    → ((is_audio_frame frame ≡ true) ↔ ((c : AudioChunk) × (decode_audio_frame frame ≡ ok c)))
      × ((length frame < 13) ↔ (decode_audio_frame frame ≡ err too_short))
unfolding decode_audio_frame is_audio_frame
decode_exactly frame = elim (Bool-cases (ltb (length frame) 13)) [
  | inl short ↦ (
    (λ h. absurd (ground arith), λ h. absurd (ground (arith, h.1))),
    (λ h. ground arith, λ h. ground arith),
  )
  | inr long ↦ elim (Bool-cases (head_byte frame == 2)) [
    | inl magic ↦ (
      (λ h. (chunk_of frame, ground arith), λ h. ground arith),
      (λ h. ground arith, λ h. ground arith),
    )
    | inr other ↦ (
      (λ h. absurd (ground arith), λ h. absurd (ground (arith, h.1))),
      (λ h. ground arith, λ h. absurd (ground arith)),
    )
  ]
]
