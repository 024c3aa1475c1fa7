-- ===== src/Lib.antt =====
-- The voice backend of the repository: the control plane of its sessions, the audio path of its RTC
-- bridge, and the services beside them.
--
-- ControlPlane: a ledger of voice sessions in SQL tables. A session is created, terminated by a request
-- that five acknowledgements complete, or that ends partial or timed out and is retried; it is then made
-- ready for a wake word, and a wake event opens the next session of the device, which a one-time hello
-- proof takes to ACTIVE. All of this runs in transactions on the same tables.
--   Schema, Payload: the rows, the statements on them and the transaction (backend/app/voice/
--     control_plane_base.py and migrations). A table is a list of rows, the newest in front; an update
--     is a map, and a unique key is a check before an insert.
--   Sessions: create_session, begin_termination (control_plane_sessions.py).
--   Acks: record_ack, finish_termination (control_plane_ack.py).
--   Retry: retry_termination (control_plane_retry.py). Kws, Readings: mark_kws_ready and the reads
--     (control_plane_kws.py).
--   Wake: consume_wake (control_plane_wake.py). Cipher: the userSig blob (user_sig_cipher.py).
--   Hello: create_for_signing and redeem (repositories/hello_proofs.py).
--   Claims: the hand-out of queued sessions (repositories/pending_sessions.py).
--   History: any sequence of these calls, which succeed or raise, each at its own time.
--   Invariant, Lifecycle and Evidence carry the proofs over histories; Replays, Gates, Sealing and Signing
--   those of single calls and of two in a row.
-- RtcBridge: backend/rtc_bridge.
--   Queue: the bounded audio queue (bounded_audio_queue.py). Frames: the frame buffer (frame_buffer.py).
--   Shaper: the downlink shaper over both (shaper.py). Drain: termination registry and drain reports
--   (drain_ack.py). Redemption and AckReporter: the clients of the control plane (redemption.py,
--   ack_reporter.py).
-- Relay: backend/relay, which pairs a phone with a PC and passes their frames on.
--   Frames, Pairing, Sealing: the codec of audio frames, the pair frame and handshake, the encryption and
--   the guard against replays (relay_protocol.py, accept_conn of relay_server.py).
--   Store, Server: RelayServer and run_conn (relay_server.py). A connection is a numbered cell of a store,
--   so that peer pointers are shared; a call is one step, given which sockets are broken, and what the
--   sockets are told is a log. What other tasks do while a call waits for a socket is not modelled.
-- Voice: backend/app/voice.
--   Reconnect: the backoff of the APM bridge (apm_reconnect.py). Nonces (nonce.py, repositories/nonces.py)
--   and RateLimit (rate_limit.py, repositories/rate_limit.py). Devices: pairing, registration and
--   revocation (devices.py, store_facade.py, repositories/pairing_codes.py and device_credentials.py).
--   Audio, EndDetect, HalfDuplex, Session: the session of a phone (audio.py, end_detect.py, half_duplex.py,
--   session.py), whose socket breaks after some number of sends. Where it streams, the calls of its bridge
--   come between its frames; the bridge itself is not modelled.
--   Jwt, HelloProof, IngestTicket: the signed proofs and tickets (hello_proof.py, ingest_ticket.py).
--
-- Numbers and times are natural numbers: seconds in the ledger and the services, milliseconds in the
-- bridge and the backoff, so fractions of these are not modelled. Clocks do not run backwards: a
-- difference of times that would be negative is 0. Results of uuid4, urandom and the clock are arguments.
-- SHA-256, JSON, UTF-8, AES-GCM, PyJWT, pydantic, HTTP answers, the speech engines and the RTC
-- coordinator are parameters, with their documented laws as hypotheses where a theorem needs them. Two
-- loops run on fuel: the cut of a buffer into frames, with the buffer's length for fuel, and the
-- reconnection, with one more than the attempts that are left; that this is enough is part of the theorems
-- on them.
--
-- Not modelled: log lines, database connections and dialects, HTTP routes, what concurrent tasks do while a
-- call waits, speech engines, the RTC bridge's sessions and server, the APM bridge, the other front ends,
-- scripts and deployment.
pub mod Relay
pub mod Prelude
pub mod ControlPlane
pub mod RtcBridge
pub mod Voice
