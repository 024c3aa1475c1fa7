-- ===== src/Relay/Frames/RoundTrip.antt =====
-- An audio frame that is encoded is decoded, and one that is decoded is encoded again.
use native.Mathlib.Nat.{mul_assoc, mul_comm, mod-eq_of_lt}
use mathlib.Core.List.{append_assoc, append-nil}
use bosimao_release.Prelude.{
  ℕ, zero, suc, ◌+◌, ◌*◌, ◌/◌, ◌%◌, ◌^◌, ◌<◌, ◌≡◌, refl, ap, [], ◌∷◌, ◌++◌, arith, length, take,
  drop, All, length-append, length-take, length-drop, take-append-drop, ok, inl, inr, Bool-cases,
  ltb, ◌==◌,
}
use bosimao_release.Relay.Frames.{
  Bytes, AudioChunk, big_endian, read_from, from_big_endian, encode_audio_frame, decode_audio_frame,
}

abbrev pub weight : ℕ → ℕ
weight zero = 1
weight (suc n) = weight n * 256

abbrev pub IsByte : ℕ → Type 0
IsByte b = b < 256

length-big_endian : (n v : ℕ) → length (big_endian n v) ≡ n
unfolding big_endian
length-big_endian zero v = refl
length-big_endian (suc n) v =
    omega
      (arith, length-append (big_endian n (v / 256)) (v % 256 ∷ []), length-big_endian n (v / 256))

read_from-snoc :
    (acc : ℕ) (bs : Bytes) (b : ℕ) → read_from acc (bs ++ b ∷ []) ≡ read_from acc bs * 256 + b
unfolding read_from
read_from-snoc acc [] b = refl
read_from-snoc acc (x ∷ bs) b = read_from-snoc (acc * 256 + x) bs b

read-big_endian : (n v : ℕ) → v < weight n → from_big_endian (big_endian n v) ≡ v
unfolding big_endian read_from
read-big_endian zero v h = omega arith
read-big_endian (suc n) v h = omega (
  arith,
  read_from-snoc 0 (big_endian n (v / 256)) (v % 256),
  read-big_endian n (v / 256) (omega arith),
)

pub take-append : (n : ℕ) (xs ys : Bytes) → length xs ≡ n → take n (xs ++ ys) ≡ xs
take-append zero [] ys e = refl
take-append zero (x ∷ xs) ys e = absurd (omega arith)
take-append (suc n) [] ys e = absurd (omega arith)
take-append (suc n) (x ∷ xs) ys e = rw (take-append n xs ys (omega arith))

pub drop-append : (n : ℕ) (xs ys : Bytes) → length xs ≡ n → drop n (xs ++ ys) ≡ ys
drop-append zero [] ys e = refl
drop-append zero (x ∷ xs) ys e = absurd (omega arith)
drop-append (suc n) [] ys e = absurd (omega arith)
drop-append (suc n) (x ∷ xs) ys e = drop-append n xs ys (omega arith)

drop-drop : (n m k : ℕ) (xs : Bytes) → k ≡ m + n → drop n (drop m xs) ≡ drop k xs
drop-drop n zero k xs e = let same : k ≡ n = omega arith in rw same refl
drop-drop zero (suc m) zero [] e = refl
drop-drop zero (suc m) (suc k) [] e = refl
drop-drop (suc n) (suc m) zero [] e = refl
drop-drop (suc n) (suc m) (suc k) [] e = refl
drop-drop n (suc m) zero (x ∷ xs) e = absurd (omega arith)
drop-drop n (suc m) (suc k) (x ∷ xs) e = drop-drop n m k xs (omega arith)

read_lt :
    (bs : Bytes) (acc m : ℕ) → All IsByte bs → acc < m → read_from acc bs < m * weight (length bs)
unfolding read_from
read_lt [] acc m h lt = omega arith
read_lt (b ∷ bs) acc m h lt = omega (
  arith,
  read_lt bs (acc * 256 + b) (m * 256) h.1 (omega (arith, h.0)),
  mul_assoc m 256 (weight (length bs)),
  mul_comm 256 (weight (length bs)),
)

big_endian-read :
    (bs : Bytes) (n k acc : ℕ)
    → All IsByte bs
    → k ≡ n + length bs
    → big_endian k (read_from acc bs) ≡ big_endian n acc ++ bs
unfolding big_endian read_from
big_endian-read [] n k acc h e =
    let same : k ≡ n = omega arith in rw (same, append-nil (big_endian n acc)) refl
big_endian-read (b ∷ bs) n k acc h e =
    let high : (acc * 256 + b) / 256 ≡ acc = omega (arith, h.0) in
    let low : (acc * 256 + b) % 256 ≡ b = omega (arith, h.0) in
    rw (big_endian-read bs (suc n) k (acc * 256 + b) h.1 (omega arith), high, low)
      (append_assoc (big_endian n acc) (b ∷ []) bs)

decode_parts :
    (a b c : Bytes)
    → length a ≡ 4
    → length b ≡ 8
    → decode_audio_frame (2 ∷ (a ++ (b ++ c)))
      ≡ ok (record { seq = from_big_endian a; ts_ms = from_big_endian b; payload = c })
unfolding decode_audio_frame
decode_parts a b c ea eb =
    let whole : length (a ++ (b ++ c)) ≡ 12 + length c =
      omega (arith, length-append a (b ++ c), length-append b c) in
    ground (
      arith,
      whole,
      take-append 4 a (b ++ c) ea,
      drop-append 4 a (b ++ c) ea,
      drop-drop 8 4 12 (a ++ (b ++ c)) (omega arith),
      take-append 8 b c eb,
      drop-append 8 b c eb,
    )

-- An encoded frame is decoded to its payload, with the sequence number modulo 2 ^ 32 and the time
-- modulo 2 ^ 64.
pub decode-encode :
    (seq ts_ms : ℕ) (payload : Bytes)
    → decode_audio_frame (encode_audio_frame seq ts_ms payload)
      ≡ ok (record { seq = seq % 2 ^ 32; ts_ms = ts_ms % 2 ^ 64; payload = payload })
unfolding encode_audio_frame
decode-encode seq ts_ms payload = rw (
  decode_parts (big_endian 4 (seq % 2 ^ 32)) (big_endian 8 (ts_ms % 2 ^ 64)) payload
      (length-big_endian 4 _) (length-big_endian 8 _),
  read-big_endian 4 (seq % 2 ^ 32) (omega arith),
  read-big_endian 8 (ts_ms % 2 ^ 64) (omega arith),
)

All-take : (n : ℕ) (xs : Bytes) → All IsByte xs → All IsByte (take n xs)
All-take zero xs h = tt
All-take (suc n) [] h = tt
All-take (suc n) (x ∷ xs) h = (h.0, All-take n xs h.1)

All-drop : (n : ℕ) (xs : Bytes) → All IsByte xs → All IsByte (drop n xs)
All-drop zero xs h = h
All-drop (suc n) [] h = tt
All-drop (suc n) (x ∷ xs) h = All-drop n xs h.1

-- A field of n bytes holds a number that is written back as the same bytes.
field :
    (n w : ℕ) (bs : Bytes)
    → All IsByte bs
    → length bs ≡ n
    → weight n ≡ w
    → big_endian n (from_big_endian bs % w) ≡ bs
unfolding big_endian
field n w bs h e ew =
    let small : from_big_endian bs < w =
      omega (arith, read_lt bs 0 1 h (omega arith), ap weight e) in
    rw (mod-eq_of_lt small) (big_endian-read bs 0 n 0 h (omega arith))

-- What a frame of bytes is decoded to is encoded as that frame.
pub encode-decode :
    (frame : Bytes) (c : AudioChunk)
    → All IsByte frame
    → decode_audio_frame frame ≡ ok c
    → encode_audio_frame c.seq c.ts_ms c.payload ≡ frame
unfolding encode_audio_frame decode_audio_frame
encode-decode [] c h e = absurd (ground arith)
encode-decode (m ∷ rest) c h e = elim (Bool-cases (ltb (length rest) 12)) [
  | inl short ↦ absurd (ground arith)
  | inr long ↦ elim (Bool-cases (m == 2)) [
    | inr other ↦ absurd (ground arith)
    | inl magic ↦
        let seq =
          field 4 (2 ^ 32) (take 4 rest) (All-take 4 rest h.1) (length-take 4 rest (ground arith))
            refl in
        let ts =
          field 8 (2 ^ 64) (take 8 (drop 4 rest)) (All-take 8 (drop 4 rest) (All-drop 4 rest h.1))
            (length-take 8 (drop 4 rest) (ground (arith, length-drop 4 rest))) refl in
        ground (
          arith,
          seq,
          ts,
          drop-drop 8 4 12 rest (omega arith),
          take-append-drop 4 rest,
          take-append-drop 8 (drop 4 rest),
        )
  ]
]
