-- ===== src/Voice/HalfDuplex.antt =====
-- The half-duplex chain, from audio to a spoken reply: backend/app/voice/half_duplex.py. The speech
-- engines and the brain's intent service are parameters.
use Prim.Native.String
use bosimao_release.Prelude.{
  String, Bool, Option, none, some, List, [], ◌∷◌, ◌=ₛ◌, any, if◌then◌else◌, take, length, leb,
}
use bosimao_release.RtcBridge.Queue.{Bytes}
use bosimao_release.Voice.Audio.{is_valid_pcm16}

pub data Route : Type 0 where
  brain_route local_route : Route

-- The result's `error_code`; the empty one is none.
pub data ErrorCode : Type 0 where
  empty_input stt_unavailable tts_unavailable : ErrorCode

-- `HalfDuplexResult`, without what the sessions do not read; `message` is that of `meta`.
pub record HalfDuplexResult : Type 0 where
  pub heard : String
  pub reply_text : String
  pub route : Route
  pub tts_format : String
  pub audio_bytes : Bytes
  pub error : Option ErrorCode
  pub model_status : String
  pub message : Option String

-- What `transcribe` answers, or raises: `SttModelUnavailable` with its text, or another exception.
pub data SttAnswer : Type 0 where
  transcript_of : (heard model_status : String) → SttAnswer
  model_unavailable : String → SttAnswer
  stt_fails : SttAnswer

-- What `IntentService.extract` answers.
pub record Intent : Type 0 where
  pub intent_type : String
  pub percent : String
  pub clarifying_questions : List String

-- What the chain takes from others: speech recognition and synthesis, with `none` for an exception,
-- whether a text contains a word, and the reply of the brain.
pub record Engine : Type 0 where
  pub transcribe : Bytes → SttAnswer
  pub model_status : String
  pub trigger_words : List String
  pub contains : String → String → Bool
  pub brain : String → Option String
  pub synthesize : String → Option (String × Bytes)

infixl 6 ◌+ₛ◌
abbrev ◌+ₛ◌ : String → String → String
s +ₛ t = String.◌++◌ s t

-- `"；".join(questions)`
abbrev pub join_questions : List String → String
join_questions [] = ""
join_questions (q ∷ []) = q
join_questions (q ∷ r ∷ qs) = q +ₛ "；" +ₛ join_questions (r ∷ qs)

-- `BrainVoiceHandler.handle`, with `none` for no service, and `some none` for a service that raises.
unfoldable pub handle : (String → Option (Option Intent)) → String → String
handle extract heard = elim (extract heard) [
  | none ↦ "已收到任务：" +ₛ heard +ₛ "。大脑拆解服务未就绪，请稍后再试。"
  | some none ↦ "已收到任务：" +ₛ heard +ₛ "。大脑暂时不可用，已记录。"
  | some (some intent) ↦
      if leb 1 (length intent.clarifying_questions)
      then "我需要确认一下：" +ₛ join_questions (take 2 intent.clarifying_questions)
      else "收到，" +ₛ intent.intent_type +ₛ " 任务已受理（置信度 " +ₛ intent.percent +ₛ "）。拆解结果稍后生成，请留意桌宠确认卡。"
]

abbrev pub is_brain_intent : Engine → String → Bool
is_brain_intent e heard = any (λ word. e.contains word heard) e.trigger_words

abbrev pub failed : String → ErrorCode → String → Option String → HalfDuplexResult
failed heard error status message = record {
  heard = heard;
  reply_text = "";
  route = local_route;
  tts_format = "mp3_24k";
  audio_bytes = [];
  error = some error;
  model_status = status;
  message = message;
}

abbrev pub brain_reply : String → Option String → String × Route
brain_reply heard none = ("收到：" +ₛ heard, local_route)
brain_reply heard (some reply) = (reply, brain_route)

abbrev pub reply_to : Engine → String → String × Route
reply_to e heard =
    if is_brain_intent e heard
    then brain_reply heard (e.brain heard)
    else ("好的，你说的是：" +ₛ heard, local_route)

abbrev pub spoken : String → String → String × Route → Option (String × Bytes) → HalfDuplexResult
spoken heard status reply none = record (failed heard tts_unavailable status none) {
  reply_text = reply.0;
  route = reply.1;
}
spoken heard status reply (some speech) = record {
  heard = heard;
  reply_text = reply.0;
  route = reply.1;
  tts_format = speech.0;
  audio_bytes = speech.1;
  error = none;
  model_status = status;
  message = none;
}

abbrev pub answer : Engine → SttAnswer → Option HalfDuplexResult
answer e (transcript_of heard status) =
    if heard =ₛ ""
    then some (failed "" empty_input status none)
    else let reply = reply_to e heard in some (spoken heard status reply (e.synthesize reply.0))
answer e (model_unavailable text) = some (failed "" stt_unavailable "missing" (some text))
answer e stt_fails = none

-- `none` where the recognition raises what is not caught.
unfoldable pub process : Engine → Bytes → Option HalfDuplexResult
process e pcm =
    if is_valid_pcm16 pcm
    then answer e (e.transcribe pcm)
    else some (failed "" empty_input e.model_status none)
