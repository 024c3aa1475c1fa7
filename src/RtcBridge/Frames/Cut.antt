-- ===== src/RtcBridge/Frames/Cut.antt =====
-- The loop of `feed` ends with its fuel, and cuts its bytes into whole frames and a rest.
use mathlib.Core.List.{append_assoc}
use bosimao_release.Prelude.{
  ℕ, zero, suc, ◌≤◌, ◌<◌, List, [], ◌∷◌, ◌++◌, ◌≡◌, refl, ap, sym, ◌∙◌, arith, leb, length, take,
  drop, All, take-append-drop, length-take, length-drop, length-append, Bool-cases, inl, inr,
}
use bosimao_release.RtcBridge.Queue.{Bytes}
use bosimao_release.RtcBridge.Frames.{cut}

abbrev pub join : List Bytes → Bytes
join [] = []
join (f ∷ fs) = f ++ join fs

abbrev pub IsFrame : ℕ → Bytes → Type 0
IsFrame n f = length f ≡ n

pub join-cut : (fuel n : ℕ) (buf : Bytes) → join (cut fuel n buf).0 ++ (cut fuel n buf).1 ≡ buf
unfolding cut
join-cut zero n buf = refl
join-cut (suc fuel) n buf = elim (Bool-cases (leb n (length buf))) [
  | inr short ↦ rw (short, cut)
  | inl whole ↦
      rw
        (
          whole,
          cut,
          append_assoc (take n buf) (join (cut fuel n (drop n buf)).0) (cut fuel n (drop n buf)).1,
          join-cut fuel n (drop n buf),
        )
        (take-append-drop n buf)
]

pub cut-frames : (fuel n : ℕ) (buf : Bytes) → All (IsFrame n) (cut fuel n buf).0
unfolding cut
cut-frames zero n buf = tt
cut-frames (suc fuel) n buf = elim (Bool-cases (leb n (length buf))) [
  | inr short ↦ rw (short, cut) tt
  | inl whole ↦ rw (whole, cut) (length-take n buf (ground arith), cut-frames fuel n (drop n buf))
]

-- With a frame of one byte or more, the fuel that the buffer's length gives is enough.
pub cut-rest :
    (fuel n : ℕ) (buf : Bytes) → 1 ≤ n → length buf ≤ fuel → length (cut fuel n buf).1 < n
unfolding cut
cut-rest zero n buf one enough = omega arith
cut-rest (suc fuel) n buf one enough =
    ground (arith, length-drop n buf, cut-rest fuel n (drop n buf) one)

append_split : (f g x y : Bytes) → length f ≡ length g → f ++ x ≡ g ++ y → (f ≡ g) × (x ≡ y)
append_split [] [] x y h e = (refl, e)
append_split [] (b ∷ g) x y h e = absurd (omega arith)
append_split (a ∷ f) [] x y h e = absurd (omega arith)
append_split (a ∷ f) (b ∷ g) x y h e = ground (arith, append_split f g x y)

-- There is one way only to cut bytes into frames and a shorter rest.
pub cut_unique :
    (n : ℕ) (fs gs : List Bytes) (r s : Bytes)
    → All (IsFrame n) fs
    → All (IsFrame n) gs
    → length r < n
    → length s < n
    → join fs ++ r ≡ join gs ++ s
    → (fs ≡ gs) × (r ≡ s)
cut_unique n [] [] r s hf hg hr hs e = (refl, e)
cut_unique n [] (g ∷ gs) r s hf hg hr hs e =
    absurd
      (omega (arith, ap length e, length-append (g ++ join gs) s, length-append g (join gs), hg.0))
cut_unique n (f ∷ fs) [] r s hf hg hr hs e =
    absurd
      (omega (arith, ap length e, length-append (f ++ join fs) r, length-append f (join fs), hf.0))
cut_unique n (f ∷ fs) (g ∷ gs) r s hf hg hr hs e =
    let (head, tail) =
      append_split f g (join fs ++ r) (join gs ++ s) (omega (arith, hf.0, hg.0))
        (sym (append_assoc f (join fs) r) ∙ e ∙ append_assoc g (join gs) s) in
    let (same, left) = cut_unique n fs gs r s hf.1 hg.1 hr hs tail in (ground arith, left)
