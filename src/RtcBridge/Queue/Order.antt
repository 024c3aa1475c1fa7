-- ===== src/RtcBridge/Queue/Order.antt =====
-- Frames leave in the order in which they came, and a full queue gives up its oldest.
use mathlib.Core.List.{Sublist, append_assoc}
use mathlib.Core.List.Sublist
use bosimao_release.Prelude.{
  ℕ, ◌+◌, ◌-◌, List, [], ◌∷◌, ◌++◌, ◌≡◌, refl, subst, sym, arith, length, keep, ◌==◌, not, Option,
  none, some, Bool, Bool-cases, List-cases, inl, inr, ltb, leb, ◌||◌,
}
use bosimao_release.RtcBridge.Queue.{
  Bytes, QueueEntry, AudioQueue, expire, drop_expired, make_room, total_size, new_entry, admit,
  push, pop_head, pop, flush, bump_generation, Call, push_frame, pop_frame, flush_frames, bump,
  step, run,
}

-- The payloads in the queue, from the oldest on.
abbrev pub payloads : List QueueEntry → List Bytes
payloads [] = []
payloads (e ∷ es) = e.payload ∷ payloads es

payloads-append : (es fs : List QueueEntry) → payloads (es ++ fs) ≡ payloads es ++ payloads fs
payloads-append [] fs = refl
payloads-append (e ∷ es) fs = rw (payloads-append es fs)

append-nil {ℓ} : {A : Type ℓ} (xs : List A) → xs ++ [] ≡ xs
append-nil [] = refl
append-nil (x ∷ xs) = rw (append-nil xs)

expire-Sublist :
    (limit now : ℕ) (es : List QueueEntry)
    → Sublist (payloads (expire limit now es).0) (payloads es)
unfolding expire
expire-Sublist limit now [] = Sublist.refl _
expire-Sublist limit now (e ∷ es) = elim (Bool-cases (ltb limit (now - e.created_at))) [
  | inl old ↦ rw (old, expire) (Sublist.cons e.payload (expire-Sublist limit now es))
  | inr young ↦ rw (young, expire) (Sublist.refl _)
]

make_room-Sublist :
    (max_frames max_bytes size : ℕ) (es : List QueueEntry)
    → Sublist (payloads (make_room max_frames max_bytes size es).0) (payloads es)
unfolding make_room
make_room-Sublist max_frames max_bytes size [] = Sublist.refl _
make_room-Sublist max_frames max_bytes size (e ∷ es) =
    elim (Bool-cases
      (leb max_frames (length (e ∷ es)) || ltb max_bytes (total_size (e ∷ es) + size))) [
        | inl full ↦
            rw (full, make_room)
              (Sublist.cons e.payload (make_room-Sublist max_frames max_bytes size es))
        | inr fits ↦ rw (fits, make_room) (Sublist.refl _)
      ]

keep-Sublist :
    (p : QueueEntry → Bool) (es : List QueueEntry) → Sublist (payloads (keep p es)) (payloads es)
keep-Sublist p [] = Sublist.refl _
keep-Sublist p (e ∷ es) = elim (Bool-cases (p e)) [
  | inl kept ↦ rw kept (Sublist.cons-cons e.payload (keep-Sublist p es))
  | inr gone ↦ rw gone (Sublist.cons e.payload (keep-Sublist p es))
]

-- What a call takes out and what it brings.
abbrev pub leaves : AudioQueue → ℕ × Call → List Bytes
leaves q (now, pop_frame) = elim (pop now q).0 [ none ↦ [] | some e ↦ e.payload ∷ [] ]
leaves q (now, _) = []

abbrev pub enters : ℕ × Call → List Bytes
enters (now, push_frame payload tags) = payload ∷ []
enters (now, _) = []

abbrev pub popped : AudioQueue → List (ℕ × Call) → List Bytes
popped q [] = []
popped q (c ∷ cs) = leaves q c ++ popped (step q c) cs

abbrev pub pushed : List (ℕ × Call) → List Bytes
pushed [] = []
pushed (c ∷ cs) = enters c ++ pushed cs

drop_expired-Sublist :
    (now : ℕ) (q : AudioQueue)
    → Sublist (payloads (drop_expired now q).entries) (payloads q.entries)
unfolding drop_expired
drop_expired-Sublist now q = expire-Sublist q.max_frame_age_ms now q.entries

admit-Sublist :
    (e : QueueEntry) (q : AudioQueue)
    → Sublist (payloads (admit e q).1.entries) (payloads q.entries ++ (e.payload ∷ []))
unfolding admit
admit-Sublist e q = elim (Bool-cases (ltb q.max_bytes e.size)) [
  | inl large ↦
      rw (large, admit)
        (subst (λ xs. Sublist xs (payloads q.entries ++ (e.payload ∷ [])))
          (append-nil (payloads q.entries))
          (Sublist.append (Sublist.refl (payloads q.entries))
            (Sublist.cons e.payload (Sublist.refl []))))
  | inr fits ↦
      rw
        (
          fits,
          admit,
          payloads-append (make_room q.max_frames q.max_bytes e.size q.entries).0 (e ∷ []),
        )
        (Sublist.append (make_room-Sublist q.max_frames q.max_bytes e.size q.entries)
          (Sublist.refl (e.payload ∷ [])))
]

nothing-Sublist : (xs : List Bytes) → Sublist [] xs
nothing-Sublist [] = Sublist.refl []
nothing-Sublist (x ∷ xs) = Sublist.cons x (nothing-Sublist xs)

pop_head-front :
    (now : ℕ) (q : AudioQueue)
    → (elim (pop_head now q).0 [ none ↦ [] | some e ↦ e.payload ∷ [] ])
        ++ payloads (pop_head now q).1.entries
      ≡ payloads q.entries
unfolding pop_head
pop_head-front now q = elim (List-cases q.entries) [
  | inl empty ↦ ground arith
  | inr (e, es, front) ↦ ground arith
]

flush-Sublist :
    (g : Option ℕ) (q : AudioQueue) → Sublist (payloads (flush g q).1.entries) (payloads q.entries)
unfolding flush
flush-Sublist none q = nothing-Sublist (payloads q.entries)
flush-Sublist (some g) q = keep-Sublist (λ (e : QueueEntry). not (e.generation == g)) q.entries

pub with_nothing : (xs ys : List Bytes) → Sublist xs ys → Sublist xs (ys ++ [])
with_nothing xs ys s = subst (λ zs. Sublist xs zs) (sym (append-nil ys)) s

pub step-Sublist :
    (q : AudioQueue) (c : ℕ × Call)
    → Sublist (leaves q c ++ payloads (step q c).entries) (payloads q.entries ++ enters c)
unfolding step push pop bump_generation
step-Sublist q (now, push_frame payload tags) =
    Sublist.trans
      (admit-Sublist (new_entry payload tags now (drop_expired now q)) (drop_expired now q))
      (Sublist.append (drop_expired-Sublist now q) (Sublist.refl (payload ∷ [])))
step-Sublist q (now, pop_frame) = with_nothing _ (payloads q.entries) (
    subst (λ xs. Sublist xs (payloads q.entries)) (sym (pop_head-front now (drop_expired now q)))
      (drop_expired-Sublist now q))
step-Sublist q (now, flush_frames g) = with_nothing _ (payloads q.entries) (flush-Sublist g q)
step-Sublist q (now, bump) = with_nothing _ (payloads q.entries) (flush-Sublist none q)

-- Over any calls, the payloads that were popped, followed by those still in the queue, are those
-- that were in the queue before, followed by those that were pushed, in the same order with some
-- left out: frames leave first in, first out, and none comes twice or from elsewhere.
pub run-Sublist :
    (q : AudioQueue) (cs : List (ℕ × Call))
    → Sublist (popped q cs ++ payloads (run q cs).entries) (payloads q.entries ++ pushed cs)
unfolding run
run-Sublist q [] = with_nothing _ (payloads q.entries) (Sublist.refl (payloads q.entries))
run-Sublist q (c ∷ cs) =
    let whole = Sublist.append (Sublist.refl (leaves q c)) (run-Sublist (step q c) cs) in
    let moved = Sublist.append (step-Sublist q c) (Sublist.refl (pushed cs)) in
    rw
      (
        append_assoc (leaves q c) (popped (step q c) cs) (payloads (run (step q c) cs).entries),
        ← append_assoc (payloads q.entries) (enters c) (pushed cs),
      )
      (Sublist.trans whole (
        subst (λ xs. Sublist xs (payloads q.entries ++ enters c ++ pushed cs))
          (append_assoc (leaves q c) (payloads (step q c).entries) (pushed cs)) moved))
