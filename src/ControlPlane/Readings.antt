-- ===== src/ControlPlane/Readings.antt =====
-- What is read of the readiness and of the sessions, and that a mark is read back:
-- backend/app/voice/control_plane_kws.py.
use bosimao_release.Prelude.{
  ℕ, ◌≡◌, refl, sym, ap, String, Bool, true, some, List, [], ◌∷◌, ◌=ₛ◌, ◌==◌, ◌&&◌, if◌then◌else◌,
  map, leb, arith, inl, inr, Bool-cases, subst, ◌∙◌, if_lem, if_true, if_false,
}
use mathlib.Core.List.{Memᴰ}
use bosimao_release.ControlPlane.Payload.{Payload}
use bosimao_release.ControlPlane.Schema.{
  State, Session, Readiness, Ledger, find_session, with_state,
}
use bosimao_release.ControlPlane.Kws.{upsert_readiness, mark_kws_ready}
use bosimao_release.ControlPlane.Invariant.{IsSound}
use bosimao_release.ControlPlane.Gates.{can_enter_terminated, mark-opens}

-- `ORDER BY key ASC`, which leaves rows of one key as they stand.
unfoldable pub insert_by {ℓ} : {A : Type ℓ} → (A → ℕ) → A → List A → List A
insert_by key x [] = x ∷ []
insert_by key x (y ∷ ys) = if leb (key x) (key y) then x ∷ y ∷ ys else y ∷ insert_by key x ys

unfoldable pub order_by {ℓ} : {A : Type ℓ} → (A → ℕ) → List A → List A
order_by key [] = []
order_by key (x ∷ xs) = insert_by key x (order_by key xs)

-- `WHERE`
unfoldable pub select {ℓ} : {A : Type ℓ} → (A → Bool) → List A → List A
select p [] = []
select p (x ∷ xs) = if p x then x ∷ select p xs else select p xs

-- A row of `get_kws_readiness`.
pub record Reading : Type 0 where
  pub session_id : String
  pub generation : ℕ
  pub reporter : String
  pub evidence : Payload
  pub recorded_at : ℕ

abbrev reading : Readiness → Reading
reading r = record {
  session_id = r.session_id;
  generation = r.generation;
  reporter = r.reporter;
  evidence = r.evidence;
  recorded_at = r.recorded_at;
}

abbrev is_readiness_of : String → ℕ → Readiness → Bool
is_readiness_of session generation r = r.session_id =ₛ session && r.generation == generation

unfoldable pub get_kws_readiness : String → ℕ → Ledger → List Reading
get_kws_readiness session generation l =
    map reading
      (order_by (λ r. r.recorded_at) (select (is_readiness_of session generation) l.readiness))

-- A row of `list_sessions`.
pub record Listed : Type 0 where
  pub session_id : String
  pub device_id : String
  pub room_id : String
  pub generation : ℕ
  pub state : State

abbrev listed : Session → Listed
listed s = record {
  session_id = s.session_id;
  device_id = s.device_id;
  room_id = s.room_id;
  generation = s.generation;
  state = s.state;
}

unfoldable pub list_sessions : Ledger → List Listed
list_sessions l = map listed (order_by (λ s. s.created_at) l.sessions)

insert_by-head {ℓ} : {A : Type ℓ} (key : A → ℕ) (x : A) (ys : List A) → Memᴰ x (insert_by key x ys)
unfolding insert_by
insert_by-head key x [] = Memᴰ.head refl
insert_by-head key x (y ∷ ys) =
    if_lem (Memᴰ x) (leb (key x) (key y)) _ _ (Memᴰ.head refl) (Memᴰ.tail (insert_by-head key x ys))

insert_by-tail {ℓ} :
    {A : Type ℓ} (key : A → ℕ) (x z : A) (ys : List A) → Memᴰ z ys → Memᴰ z (insert_by key x ys)
unfolding insert_by
insert_by-tail key x z [] m = elim m [ ]
insert_by-tail key x z (y ∷ ys) (Memᴰ.head e) =
    if_lem (Memᴰ z) (leb (key x) (key y)) _ _ (Memᴰ.tail (Memᴰ.head e)) (Memᴰ.head e)
insert_by-tail key x z (y ∷ ys) (Memᴰ.tail m) =
    if_lem (Memᴰ z) (leb (key x) (key y)) _ _ (Memᴰ.tail (Memᴰ.tail m))
      (Memᴰ.tail (insert_by-tail key x z ys m))

order_by-Mem {ℓ} :
    {A : Type ℓ} (key : A → ℕ) (z : A) (xs : List A) → Memᴰ z xs → Memᴰ z (order_by key xs)
unfolding order_by
order_by-Mem key z [] m = elim m [ ]
order_by-Mem key z (x ∷ xs) (Memᴰ.head e) =
    subst (λ w. Memᴰ w (insert_by key x (order_by key xs))) (sym e)
      (insert_by-head key x (order_by key xs))
order_by-Mem key z (x ∷ xs) (Memᴰ.tail m) =
    insert_by-tail key x z (order_by key xs) (order_by-Mem key z xs m)

select-Mem {ℓ} :
    {A : Type ℓ} (p : A → Bool) (z : A) (xs : List A)
    → p z ≡ true
    → Memᴰ z xs
    → Memᴰ z (select p xs)
unfolding select
select-Mem p z [] holds m = elim m [ ]
select-Mem p z (x ∷ xs) holds (Memᴰ.head e) =
    subst (Memᴰ z) (sym (if_true (p x) _ _ (ap p (sym e) ∙ holds))) (Memᴰ.head e)
select-Mem p z (x ∷ xs) holds (Memᴰ.tail m) =
    let later = select-Mem p z xs holds m in if_lem (Memᴰ z) (p x) _ _ (Memᴰ.tail later) later

map-Mem {ℓ κ} :
    {A : Type ℓ} {B : Type κ} (f : A → B) (z : A) (xs : List A) → Memᴰ z xs → Memᴰ (f z) (map f xs)
map-Mem f z [] m = elim m [ ]
map-Mem f z (x ∷ xs) (Memᴰ.head e) = Memᴰ.head (ap f e)
map-Mem f z (x ∷ xs) (Memᴰ.tail m) = Memᴰ.tail (map-Mem f z xs m)

-- The row that is met, with what the new one records, is the new one.
same_row :
    (r x : Readiness)
    → (x.session_id =ₛ r.session_id && x.generation == r.generation && x.reporter =ₛ r.reporter)
      ≡ true
    → r ≡ record x { evidence = r.evidence; recorded_at = r.recorded_at; updated_at = r.updated_at }
same_row r x e = ground arith

upsert_readiness-Mem : (r : Readiness) (rs : List Readiness) → Memᴰ r (upsert_readiness r rs)
unfolding upsert_readiness
upsert_readiness-Mem r [] = Memᴰ.head refl
upsert_readiness-Mem r (x ∷ xs) =
    elim (Bool-cases
      (x.session_id =ₛ r.session_id && x.generation == r.generation && x.reporter =ₛ r.reporter)) [
        | inl e ↦ subst (Memᴰ r) (sym (if_true _ _ _ e)) (Memᴰ.head (same_row r x e))
        | inr e ↦ subst (Memᴰ r) (sym (if_false _ _ _ e)) (Memᴰ.tail (upsert_readiness-Mem r xs))
      ]

-- A row that was recorded is read.
upsert_readiness-get :
    (r : Readiness) (l : Ledger)
    → is_readiness_of r.session_id r.generation r ≡ true
    → Memᴰ (reading r) (
        get_kws_readiness r.session_id r.generation
          (record l { readiness = upsert_readiness r l.readiness }))
unfolding get_kws_readiness
upsert_readiness-get r l own =
    let rs = upsert_readiness r l.readiness in
    let selected = select (is_readiness_of r.session_id r.generation) rs in
    map-Mem reading r (order_by (λ r. r.recorded_at) selected) (
      order_by-Mem (λ r. r.recorded_at) r selected
        (select-Mem (is_readiness_of r.session_id r.generation) r rs own
          (upsert_readiness-Mem r l.readiness)))

-- In a ledger that the invariant holds of, a session that is TERMINATED is marked ready by any
-- reporter of its generation, and what that mark recorded is read back.
pub mark_kws_ready-get :
    (k : String) (reporter : String) (evidence : Payload) (now : ℕ) (l : Ledger) (s : Session)
    → IsSound l
    → find_session k l ≡ some s
    → s.state ≡ State.terminated
    → (find_session k (mark_kws_ready k s.generation reporter evidence now l).1
        ≡ some (with_state State.kws_ready now s))
      × Memᴰ
          (record {
            session_id = k;
            generation = s.generation;
            reporter = reporter;
            evidence = evidence;
            recorded_at = now;
          })
          (get_kws_readiness k s.generation
            (mark_kws_ready k s.generation reporter evidence now l).1)
unfolding get_kws_readiness mark_kws_ready
mark_kws_ready-get k reporter evidence now l s v e ended = (
  mark-opens k reporter evidence now l s v e ended,
  rw (can_enter_terminated k l s v e ended) (upsert_readiness-get entry l (ground arith)),
)
  where
    entry : Readiness
    entry = record {
      session_id = k;
      generation = s.generation;
      reporter = reporter;
      evidence = evidence;
      recorded_at = now;
      updated_at = now;
    }
