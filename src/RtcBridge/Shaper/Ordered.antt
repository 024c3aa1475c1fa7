-- ===== src/RtcBridge/Shaper/Ordered.antt =====
-- A running shaper sends what it is given in order.
use mathlib.Core.List.{Sublist, append_assoc}
use mathlib.Core.List.Sublist
use bosimao_release.Prelude.{
  ℕ, ◌+◌, String, false, Option, none, some, List, [], ◌∷◌, ◌++◌, ◌≡◌, refl, sym, ap, subst, ◌∙◌,
  if_false,
}
use bosimao_release.RtcBridge.Queue as Queue
use bosimao_release.RtcBridge.Queue.{Bytes, AudioQueue, QueueEntry, push_frame, pop_frame}
use bosimao_release.RtcBridge.Queue.Order.{payloads, leaves, step-Sublist, with_nothing}
use bosimao_release.RtcBridge.Frames as Frames
use bosimao_release.RtcBridge.Frames.{FrameBuffer, feed_all, drop_tail}
use bosimao_release.RtcBridge.Shaper.{
  Shaper, Pace, DownFrame, answer, begin_reply, enqueue, reply_tags, push, turn,
}

-- What happens to a running shaper: a chunk is pushed, the loop takes a turn, a reply begins.
pub data Call : Type 0 where
  push_chunk : Bytes → Option ℕ → Call
  take_turn : Call
  begin : String → Call

-- The loop's timetable and the shaper.
abbrev pub Running : Type 0
Running = Pace × Shaper

unfoldable pub step : ℕ × Call → Running → Running
step (now, push_chunk pcm src) (p, s) = (p, push pcm src now s)
step (now, take_turn) (p, s) = ((turn now p s).1, (turn now p s).2)
step (now, begin reply) (p, s) = (p, begin_reply reply s)

abbrev pub payload_of : Option (DownFrame × ℕ) → List Bytes
payload_of none = []
payload_of (some d) = d.0.payload ∷ []

abbrev pub sends : ℕ × Call → Running → List Bytes
sends (now, take_turn) (p, s) = payload_of (turn now p s).0
sends (now, _) x = []

unfoldable pub run : List (ℕ × Call) → Running → Running
run [] x = x
run (c ∷ cs) x = run cs (step c x)

-- The payloads that are sent, in order.
unfoldable pub sent : List (ℕ × Call) → Running → List Bytes
sent [] x = []
sent (c ∷ cs) x = sends c x ++ sent cs (step c x)

-- The chunks that are pushed.
abbrev pub chunks : List (ℕ × Call) → List (Bytes × Option ℕ)
chunks [] = []
chunks ((now, push_chunk pcm src) ∷ cs) = (pcm, src) ∷ chunks cs
chunks (_ ∷ cs) = chunks cs

enqueue-rest :
    (fs : List Bytes) (src : Option ℕ) (now : ℕ) (s : Shaper)
    → ((enqueue fs src now s).closed ≡ s.closed) × ((enqueue fs src now s).buffer ≡ s.buffer)
unfolding enqueue
enqueue-rest [] src now s = (refl, refl)
enqueue-rest (f ∷ fs) src now s = enqueue-rest fs src now (record s {
  frame_seq = s.frame_seq + 1;
  queue = (Queue.push f (reply_tags s src) now s.queue).1;
})

enqueue-Sublist :
    (fs : List Bytes) (src : Option ℕ) (now : ℕ) (s : Shaper)
    → Sublist (payloads (enqueue fs src now s).queue.entries) (payloads s.queue.entries ++ fs)
unfolding enqueue Queue.step
enqueue-Sublist [] src now s =
    with_nothing _ (payloads s.queue.entries) (Sublist.refl (payloads s.queue.entries))
enqueue-Sublist (f ∷ fs) src now s =
    let q = (Queue.push f (reply_tags s src) now s.queue).1 in
    let later = enqueue-Sublist fs src now (record s { frame_seq = s.frame_seq + 1; queue = q }) in
    let one = step-Sublist s.queue (now, push_frame f (reply_tags s src)) in
    Sublist.trans later (
      subst (λ xs. Sublist (payloads q.entries ++ fs) xs)
        (append_assoc (payloads s.queue.entries) (f ∷ []) fs)
        (Sublist.append one (Sublist.refl fs)))

-- The frames that a call brings.
abbrev news : ℕ × Call → Shaper → List Bytes
news (now, push_chunk pcm src) s = (Frames.feed pcm src s.buffer).0
news (now, _) s = []

-- An open shaper after a call: it is open, what was sent and what is queued was queued or is new, in order, and
-- what is cut from later chunks goes on from there.
record IsNext (c : ℕ × Call) (cs : List (ℕ × Call)) (p : Pace) (s : Shaper) : Type 0 where
  pub open_still : (step c (p, s)).1.closed ≡ false
  pub ordered :
      Sublist
        (sends c (p, s) ++ payloads (step c (p, s)).1.queue.entries)
        (payloads s.queue.entries ++ news c s)
  pub goes_on :
      (feed_all (chunks (c ∷ cs)) s.buffer).0
      ≡ news c s ++ (feed_all (chunks cs) (step c (p, s)).1.buffer).0

push-IsNext :
    (now : ℕ) (pcm : Bytes) (src : Option ℕ) (cs : List (ℕ × Call)) (p : Pace) (s : Shaper)
    → s.closed ≡ false
    → IsNext (now, push_chunk pcm src) cs p s
unfolding step push feed_all
push-IsNext now pcm src cs p s open_ =
    let s' = record s { buffer = (Frames.feed pcm src s.buffer).1; last_push = now } in
    let frames = (Frames.feed pcm src s.buffer).0 in
    let e : push pcm src now s ≡ enqueue frames src now s' = if_false s.closed _ _ open_ in
    let (closed, buffer) = enqueue-rest frames src now s' in
    record {
      open_still = ap (λ (t : Shaper). t.closed) e ∙ closed ∙ open_;
      ordered =
          subst
            (λ (t : Shaper).
              Sublist (payloads t.queue.entries) (payloads s.queue.entries ++ frames))
            (sym e) (enqueue-Sublist frames src now s');
      goes_on =
          ap (λ b. frames ++ (feed_all (chunks cs) b).0)
            (sym (ap (λ (t : Shaper). t.buffer) e ∙ buffer));
    }

answer_lem :
    (o : Option QueueEntry) (now : ℕ) (p : Pace) (s : Shaper)
    → (payload_of (answer o now p s).0 ≡ elim o [ none ↦ [] | some e ↦ e.payload ∷ [] ])
      × ((answer o now p s).2 ≡ s)
answer_lem none now p s = (refl, refl)
answer_lem (some e) now p s = (refl, refl)

turn-IsNext :
    (now : ℕ) (cs : List (ℕ × Call)) (p : Pace) (s : Shaper)
    → s.closed ≡ false
    → IsNext (now, take_turn) cs p s
unfolding step turn Queue.step
turn-IsNext now cs p s open_ =
    let q = (Queue.pop now s.queue).1 in
    let o = (Queue.pop now s.queue).0 in
    let s' = record s { queue = q } in
    let e : turn now p s ≡ answer o now p s' = if_false s.closed _ _ open_ in
    let (payload, same) = answer_lem o now p s' in
    let after_ : (turn now p s).2 ≡ s' =
      ap (λ (t : Option (DownFrame × ℕ) × Pace × Shaper). t.2) e ∙ same in
    let sent_ : payload_of (turn now p s).0 ≡ leaves s.queue (now, pop_frame) =
      ap (λ (t : Option (DownFrame × ℕ) × Pace × Shaper). payload_of t.0) e ∙ payload in
    record {
      open_still = ap (λ (t : Shaper). t.closed) after_ ∙ open_;
      ordered = rw (sent_, after_) (step-Sublist s.queue (now, pop_frame));
      goes_on = ap (λ (t : Shaper). (feed_all (chunks cs) t.buffer).0) (sym after_);
    }

step-IsNext :
    (c : ℕ × Call) (cs : List (ℕ × Call)) (p : Pace) (s : Shaper)
    → s.closed ≡ false
    → IsNext c cs p s
unfolding step
step-IsNext (now, push_chunk pcm src) cs p s open_ = push-IsNext now pcm src cs p s open_
step-IsNext (now, take_turn) cs p s open_ = turn-IsNext now cs p s open_
step-IsNext (now, begin reply) cs p s open_ = record {
  open_still = open_;
  ordered = with_nothing _ (payloads s.queue.entries) (Sublist.refl (payloads s.queue.entries));
  goes_on = refl;
}

-- What is sent and queued was queued before or is cut from what was pushed since, in order.
pub run-ordered :
    (cs : List (ℕ × Call)) (p : Pace) (s : Shaper)
    → s.closed ≡ false
    → Sublist
        (sent cs (p, s) ++ payloads (run cs (p, s)).1.queue.entries)
        (payloads s.queue.entries ++ (feed_all (chunks cs) s.buffer).0)
unfolding run sent feed_all
run-ordered [] p s open_ =
    with_nothing _ (payloads s.queue.entries) (Sublist.refl (payloads s.queue.entries))
run-ordered (c ∷ cs) p s open_ =
    let h = step-IsNext c cs p s open_ in
    let p' = (step c (p, s)).0 in
    let s' = (step c (p, s)).1 in
    let rest = (feed_all (chunks cs) s'.buffer).0 in
    let whole =
      Sublist.append (Sublist.refl (sends c (p, s))) (run-ordered cs p' s' h.open_still) in
    let moved = Sublist.append h.ordered (Sublist.refl rest) in
    rw
      (
        append_assoc (sends c (p, s)) (sent cs (p', s'))
            (payloads (run cs (p', s')).1.queue.entries),
        h.goes_on,
        ← append_assoc (payloads s.queue.entries) (news c s) rest,
      )
      (Sublist.trans whole (
        subst (λ xs. Sublist xs ((payloads s.queue.entries ++ news c s) ++ rest))
          (append_assoc (sends c (p, s)) (payloads s'.queue.entries) rest) moved))
