-- ===== src/ControlPlane/Retry.antt =====
-- Retries of a termination that ended partial or timed out: backend/app/voice/control_plane_retry.py.
use bosimao_release.Prelude.{
  ℕ, String, Bool, true, false, not, Option, none, some, List, [], ◌∷◌, ◌++◌, map, ◌=ₛ◌,
  if◌then◌else◌, find, keep, count, Result, ok, err, ◌>>=◌, ◌>>◌, raise_if,
}
use bosimao_release.ControlPlane.Schema.{
  State, Operation, TerminationResult, AckRow, Session, Termination, Ledger, Error, invalid_state,
  idempotency_conflict, is_request, set_session_state, insert_termination, commit,
}
use bosimao_release.ControlPlane.Payload.{text, int, Payload, Hashing, payload_hash}
use bosimao_release.ControlPlane.Sessions.{TerminationView, get_termination}
use bosimao_release.ControlPlane.Acks.{termination_context, is_confirmed_ack}

abbrev pub is_retryable : TerminationResult → Bool
is_retryable TerminationResult.partial = true
is_retryable TerminationResult.timeout = true
is_retryable _ = false

-- `RETRY_ALLOWED_STATES`
abbrev pub allows_retry : State → Bool
allows_retry State.termination_partial = true
allows_retry State.termination_timeout = true
allows_retry _ = false

-- `RETRY_REASON_BY_PARENT_RESULT.get(…)`
abbrev pub retry_reason : TerminationResult → Option String
retry_reason TerminationResult.partial = some "retry_failed_acknowledgements"
retry_reason TerminationResult.timeout = some "retry_timeout"
retry_reason _ = none

abbrev pub is_reason : String → Option String → Bool
is_reason s none = false
is_reason s (some r) = s =ₛ r

abbrev pub is_child : String → Termination → Bool
is_child parent t = elim t.parent_termination_id [ none ↦ false | some p ↦ p =ₛ parent ]

abbrev pub has_some {ℓ} : {A : Type ℓ} → Option A → Bool
has_some none = false
has_some (some _) = true

abbrev pub retry_payload : Termination → Session → String → Payload
retry_payload parent s reason =
    ("session_id", text parent.session_id)
    ∷ ("device_id", text s.device_id)
    ∷ ("room_id", text s.room_id)
    ∷ ("generation", int parent.generation)
    ∷ ("reason", text reason)
    ∷ ("parent_termination_id", text parent.termination_id)
    ∷ []

-- `INSERT … SELECT` of the parent's confirmed acknowledgements, marked as inherited.
abbrev pub inherit : String → ℕ → AckRow → AckRow
inherit child now a = record a {
  termination_id = child;
  inherited = true;
  created_at = now;
  updated_at = now;
}

unfoldable pub inherited_acks : String → String → ℕ → List AckRow → List AckRow
inherited_acks child parent now acks = map (inherit child now) (keep (is_confirmed_ack parent) acks)

module _ (h : Hashing) where
  abbrev pub retry_row : Termination → String → String → String → ℕ → Termination
  retry_row parent hash id request now = record {
    termination_id = id;
    session_id = parent.session_id;
    generation = parent.generation;
    operation = Operation.retry;
    request_id = request;
    payload_hash = hash;
    parent_termination_id = some parent.termination_id;
    result = TerminationResult.pending;
    state = State.terminating;
    terminal_at = none;
    created_at = now;
    updated_at = now;
  }

  -- The inserts of a new retry.
  unfoldable pub open_retry :
      Termination → String → String → String → ℕ → Ledger → Result Error (String × Ledger)
  open_retry parent hash id request now l = do
    l' ← insert_termination (retry_row parent hash id request now) l
    ok (
      id,
      record l' {
        acks = inherited_acks id parent.termination_id now l'.acks ++ l'.acks;
        sessions =
            set_session_state parent.session_id (λ _. true) State.terminating now l'.sessions;
      },
    )

  -- A request that was seen before is answered from its row.
  unfoldable pub settle_retry :
      Termination → String → String → String → ℕ → Ledger → Result Error (String × Ledger)
  settle_retry parent hash id request now l =
      elim (find (is_request parent.session_id parent.generation request) l.terminations) [
        | some existing ↦
            if existing.payload_hash =ₛ hash
            then ok (existing.termination_id, l)
            else err idempotency_conflict
        | none ↦ open_retry parent hash id request now l
      ]

  -- The checks on the parent, in their order.
  unfoldable pub check_retry :
      String → Termination → Session → String → Ledger → Result Error (Unit {0})
  check_retry session parent s reason l = do
    raise_if (not (parent.session_id =ₛ session)) (invalid_state 40916)
    raise_if (not (is_retryable parent.result)) (invalid_state 40913)
    raise_if (not (allows_retry s.state)) (invalid_state 40913)
    raise_if (not (is_reason reason (retry_reason parent.result))) (invalid_state 40913)
    raise_if (has_some (find (is_child parent.termination_id) l.terminations)) (invalid_state 40913)

  -- The transaction of `retry_termination`; `id` is the value of `uuid.uuid4()`.
  unfoldable pub retry_termination_tx :
      String → String → String → String → String → ℕ → Ledger → Result Error (String × Ledger)
  unfolding check_retry settle_retry open_retry
  retry_termination_tx session parent_id request reason id now l = do
    (parent, s) ← termination_context parent_id l
    check_retry session parent s reason l
    settle_retry parent (payload_hash h (retry_payload parent s reason)) id request now l

  unfoldable pub retry_termination :
      String
      → String
      → String
      → String
      → String
      → ℕ
      → Ledger
      → Result Error TerminationView × Ledger
  retry_termination session parent_id request reason id now l =
      let (r, l') = commit (retry_termination_tx session parent_id request reason id now l) l in
      ((r >>= λ t. get_termination t l'), l')

-- `count_terminations`
unfoldable pub count_terminations : String → Ledger → ℕ
count_terminations session l = count (λ (t : Termination). t.session_id =ₛ session) l.terminations
