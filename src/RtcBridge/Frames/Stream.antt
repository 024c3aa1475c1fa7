-- ===== src/RtcBridge/Frames/Stream.antt =====
-- The frames of a stream do not depend on how it was cut into chunks.
use mathlib.Core.List.{append_assoc}
use bosimao_release.Prelude.{
  ℕ, ◌≤◌, ◌<◌, List, [], ◌∷◌, ◌++◌, ◌≡◌, refl, ap, sym, ◌∙◌, arith, length, All, All-append, Option,
}
use bosimao_release.RtcBridge.Queue.{Bytes}
use bosimao_release.RtcBridge.Frames.{FrameBuffer, feed, feed_all}
use bosimao_release.RtcBridge.Frames.Cut.{join, IsFrame, join-cut, cut-frames, cut-rest, cut_unique}

-- A frame has a byte at least, and less than a frame is waiting.
abbrev pub IsReady : FrameBuffer → Type 0
IsReady b = (1 ≤ b.frame_bytes) × (length b.buf < b.frame_bytes)

abbrev pub stream : List (Bytes × Option ℕ) → Bytes
stream [] = []
stream (c ∷ cs) = c.0 ++ stream cs

-- What `feed` makes of its chunk.
record Fed (b : FrameBuffer) (chunk : Bytes) (r : List Bytes × FrameBuffer) : Type 0 where
  pub whole : All (IsFrame b.frame_bytes) r.0
  pub rest : length r.1.buf < b.frame_bytes
  pub bytes : join r.0 ++ r.1.buf ≡ b.buf ++ chunk
  pub same : r.1.frame_bytes ≡ b.frame_bytes

append-nil : (xs : Bytes) → xs ++ [] ≡ xs
append-nil [] = refl
append-nil (x ∷ xs) = rw (append-nil xs)

feed-Fed :
    (chunk : Bytes) (src : Option ℕ) (b : FrameBuffer) → IsReady b → Fed b chunk (feed chunk src b)
unfolding feed
feed-Fed [] src b h = record { whole = tt; rest = h.1; bytes = sym (append-nil b.buf); same = refl }
feed-Fed (x ∷ chunk) src b h =
    let all = b.buf ++ (x ∷ chunk) in
    record {
      whole = cut-frames (length all) b.frame_bytes all;
      rest = cut-rest (length all) b.frame_bytes all h.0 (omega arith);
      bytes = join-cut (length all) b.frame_bytes all;
      same = refl;
    }

join-append : (fs gs : List Bytes) → join (fs ++ gs) ≡ join fs ++ join gs
join-append [] gs = refl
join-append (f ∷ fs) gs = rw (join-append fs gs, append_assoc f (join fs) (join gs))

feed_all-Fed :
    (cs : List (Bytes × Option ℕ)) (b : FrameBuffer) → IsReady b → Fed b (stream cs) (feed_all cs b)
unfolding feed_all
feed_all-Fed [] b h = record { whole = tt; rest = h.1; bytes = sym (append-nil b.buf); same = refl }
feed_all-Fed (c ∷ cs) b h =
    let one = feed-Fed c.0 c.1 b h in
    let (frames, b') = feed c.0 c.1 b in
    let more = feed_all-Fed cs b' (rw (one.same) h.0, rw (one.same) one.rest) in
    record {
      whole =
          All-append (IsFrame b.frame_bytes) frames (feed_all cs b').0 one.whole
            (rw (one.same) at more.whole);
      rest = rw (one.same) at more.rest;
      bytes =
          ap (λ x. x ++ (feed_all cs b').1.buf) (join-append frames (feed_all cs b').0)
          ∙ append_assoc (join frames) (join (feed_all cs b').0) (feed_all cs b').1.buf
          ∙ ap (λ x. join frames ++ x) more.bytes
          ∙ sym (append_assoc (join frames) b'.buf (stream cs))
          ∙ ap (λ x. x ++ stream cs) one.bytes
          ∙ append_assoc b.buf c.0 (stream cs);
      same = more.same ∙ one.same;
    }

-- However a stream is cut into chunks, the frames that come out of a buffer and the bytes that
-- wait in it are those that the whole stream gives in one chunk; each frame is whole; and the
-- frames and the waiting bytes together are the bytes that were waiting and the stream.
pub feed_all-stream :
    (cs : List (Bytes × Option ℕ)) (src : Option ℕ) (b : FrameBuffer)
    → IsReady b
    → ((feed_all cs b).0 ≡ (feed (stream cs) src b).0)
      × ((feed_all cs b).1.buf ≡ (feed (stream cs) src b).1.buf)
      × All (IsFrame b.frame_bytes) (feed_all cs b).0
      × (join (feed_all cs b).0 ++ (feed_all cs b).1.buf ≡ b.buf ++ stream cs)
feed_all-stream cs src b h =
    let many = feed_all-Fed cs b h in
    let one = feed-Fed (stream cs) src b h in
    let (frames, left) =
      cut_unique b.frame_bytes (feed_all cs b).0 (feed (stream cs) src b).0 (feed_all cs b).1.buf
        (feed (stream cs) src b).1.buf many.whole one.whole many.rest one.rest
        (many.bytes ∙ sym one.bytes) in
    (frames, left, many.whole, many.bytes)
