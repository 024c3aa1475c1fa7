-- ===== src/RtcBridge/Shaper/Fresh.antt =====
-- What a shaper lets through after a reset and after its stop.
use bosimao_release.Prelude.{List}
use bosimao_release.RtcBridge.Queue as Queue
use bosimao_release.RtcBridge.Queue.{AudioQueue, QueueEntry, push_frame, pop_frame}
use bosimao_release.RtcBridge.Frames as Frames
use bosimao_release.RtcBridge.Shaper.{Shaper}
