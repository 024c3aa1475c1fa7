-- ===== src/Voice/Nonces.antt =====
-- Nonces are consumed once by a subject: backend/app/voice/nonce.py and repositories/nonces.py.
-- The digest is SHA-256, a parameter.
use Prim.Native.String.{count as length_of}
use bosimao_release.Prelude.{
  ℕ, ◌+◌, ◌≤◌, String, Bool, true, false, not, Option, none, some, List, [], ◌∷◌, ◌≡◌, arith, ◌=ₛ◌,
  ◌&&◌, ◌||◌, ltb, if◌then◌else◌, find, keep, length, ◌-◌, Option-cases, inl, inr,
}

pub record NonceRow : Type 0 where
  pub subject_id : String
  pub nonce_hash : String
  pub expires_at : ℕ
  pub created_at : ℕ

abbrev pub max_nonce_length : ℕ
max_nonce_length = 128

abbrev pub is_consumed : String → String → NonceRow → Bool
is_consumed subject hash r = r.subject_id =ₛ subject && r.nonce_hash =ₛ hash

-- `NonceRepository.consume`: the insert, which the unique index refuses for a row that is there.
unfoldable pub consume_row : String → String → ℕ → ℕ → List NonceRow → Bool × List NonceRow
consume_row subject hash ttl now rows = elim (find (is_consumed subject hash) rows) [
  | some _ ↦ (false, rows)
  | none ↦ (
    true,
    record { subject_id = subject; nonce_hash = hash; expires_at = now + ttl; created_at = now }
        ∷ rows,
  )
]

-- `NonceRepository.purge_expired`
unfoldable pub purge_expired : ℕ → List NonceRow → ℕ × List NonceRow
purge_expired now rows =
    let left = keep (λ (r : NonceRow). not (ltb r.expires_at now)) rows in
    (length rows - length left, left)

module _ (digest : String → String) where
  -- `NonceService.consume`
  unfoldable pub consume : ℕ → String → String → ℕ → List NonceRow → Bool × List NonceRow
  unfolding consume_row
  consume ttl subject nonce now rows =
      if nonce =ₛ "" || ltb (length_of nonce) 16 || ltb max_nonce_length (length_of nonce)
      then (false, rows)
      else consume_row subject (digest nonce) ttl now rows

  -- A call on the service: a nonce of a subject, or a purge, each at its time.
  pub data Call : Type 0 where
    use_nonce : String → String → Call
    purge : Call

  unfoldable pub step : ℕ → ℕ × Call → List NonceRow → Bool × List NonceRow
  unfolding purge_expired consume
  step ttl (now, use_nonce subject nonce) rows = consume ttl subject nonce now rows
  step ttl (now, purge) rows = (false, (purge_expired now rows).1)

  unfoldable pub run : ℕ → List (ℕ × Call) → List NonceRow → List NonceRow
  run ttl [] rows = rows
  run ttl (c ∷ cs) rows = run ttl cs (step ttl c rows).1

abbrev Lasts : ℕ → Option NonceRow → Type 0
Lasts until none = ⊥
Lasts until (some r) = until ≤ r.expires_at

-- The row of a nonce that holds until `until` at least.
abbrev Held : String → String → ℕ → List NonceRow → Type 0
Held subject hash until rows = Lasts until (find (is_consumed subject hash) rows)

-- Every call is made by `until`.
abbrev pub By : ℕ → {C : Type 0} → List (ℕ × C) → Type 0
By until [] = Unit
By until (c ∷ cs) = (c.0 ≤ until) × By until cs

module _ (subject hash : String) (until : ℕ) where
  purge_Held :
      (now : ℕ) (rows : List NonceRow)
      → now ≤ until
      → Held subject hash until rows
      → Held subject hash until (purge_expired now rows).1
  unfolding purge_expired
  purge_Held now [] le h = h
  purge_Held now (r ∷ rows) le h = ground (arith, purge_Held now rows le)

  consume_row-Held :
      (other_subject other_hash : String) (ttl now : ℕ) (rows : List NonceRow)
      → Held subject hash until rows
      → Held subject hash until (consume_row other_subject other_hash ttl now rows).1
  unfolding consume_row
  consume_row-Held other_subject other_hash ttl now rows h =
      elim (Option-cases (find (is_consumed other_subject other_hash) rows)) [
        | inr (r, e) ↦ ground arith
        | inl e ↦ ground arith
      ]

  Held-refuses :
      (ttl now : ℕ) (rows : List NonceRow)
      → Held subject hash until rows
      → consume_row subject hash ttl now rows ≡ (false, rows)
  unfolding consume_row
  Held-refuses ttl now rows h = elim (Option-cases (find (is_consumed subject hash) rows)) [
    | inl e ↦ ground arith
    | inr (r, e) ↦ ground arith
  ]

module _ (digest : String → String) where
  step-Held :
      (subject hash : String) (until ttl : ℕ) (c : ℕ × Call digest) (rows : List NonceRow)
      → c.0 ≤ until
      → Held subject hash until rows
      → Held subject hash until (step digest ttl c rows).1
  unfolding step consume
  step-Held subject hash until ttl (now, purge) rows le h =
      purge_Held subject hash until now rows le h
  step-Held subject hash until ttl (now, use_nonce other nonce) rows le h =
      ground (arith, consume_row-Held subject hash until other (digest nonce) ttl now rows)

  run-Held :
      (subject hash : String) (until ttl : ℕ) (cs : List (ℕ × Call digest)) (rows : List NonceRow)
      → By until cs
      → Held subject hash until rows
      → Held subject hash until (run digest ttl cs rows)
  unfolding run
  run-Held subject hash until ttl [] rows by h = h
  run-Held subject hash until ttl (c ∷ cs) rows by h =
      run-Held subject hash until ttl cs (step digest ttl c rows).1 by.1
        (step-Held subject hash until ttl c rows by.0 h)

  consume-Held :
      (ttl : ℕ) (subject nonce : String) (now : ℕ) (rows : List NonceRow)
      → (consume digest ttl subject nonce now rows).0 ≡ true
      → Held subject (digest nonce) (now + ttl) (consume digest ttl subject nonce now rows).1
  unfolding consume consume_row
  consume-Held ttl subject nonce now rows e =
      elim (Option-cases (find (is_consumed subject (digest nonce)) rows)) [
        | inl new ↦ ground arith
        | inr (r, old) ↦ absurd (ground arith)
      ]

  -- A nonce that a subject consumed is refused to it for the rest of its lifetime: at any later
  -- call, after any calls by anyone and any purges that are made within that lifetime; and the
  -- table stays as it is.
  pub consume-run-consume :
      (ttl : ℕ) (subject nonce : String) (now now' : ℕ) (cs : List (ℕ × Call digest))
      (rows : List NonceRow)
      → (consume digest ttl subject nonce now rows).0 ≡ true
      → By (now + ttl) cs
      → let rows' = run digest ttl cs (consume digest ttl subject nonce now rows).1 in
        consume digest ttl subject nonce now' rows' ≡ (false, rows')
  unfolding consume
  consume-run-consume ttl subject nonce now now' cs rows e by =
      let rows' = run digest ttl cs (consume digest ttl subject nonce now rows).1 in
      let held =
        run-Held subject (digest nonce) (now + ttl) ttl cs
          (consume digest ttl subject nonce now rows).1 by
          (consume-Held ttl subject nonce now rows e) in
      ground (arith, Held-refuses subject (digest nonce) (now + ttl) ttl now' rows' held)
