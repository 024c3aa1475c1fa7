-- ===== src/ControlPlane/Invariant/Keeps.antt =====
-- Rules by which a transaction, a `do` block of checks and writes, keeps the invariant.
use bosimao_release.Prelude.{
  String, Bool, true, false, Option, none, some, ◌∷◌, ◌≡◌, refl, Result, ok, err, ◌>>=◌, ◌>>◌,
  raise_if, or_raise, if◌then◌else◌, find, Option-cases, inl, inr,
}
use bosimao_release.ControlPlane.Schema.{
  Session, Termination, Ledger, Error, find_session, find_termination, commit, insert_termination,
  is_request,
}
use bosimao_release.ControlPlane.Acks.{termination_context}
use bosimao_release.ControlPlane.Invariant.{IsSound}
use bosimao_release.ControlPlane.Evidence.{Evidence}
use bosimao_release.ControlPlane.Lifecycle.{Evolves, Evolves-refl}

-- What a check finds, if it does not raise.
abbrev pub Ensures {ℓ κ} : {A : Type ℓ} → (A → Type κ) → Result Error A → Type κ
Ensures P (ok a) = P a
Ensures P (err _) = Unit

-- The ledger is sound, its sessions have evolved from those before, and the evidence is kept.
abbrev pub Advances : Ledger → Ledger → Type 0
Advances l l' = IsSound l' × Evolves l.sessions l'.sessions × (Evidence l → Evidence l')

-- What a transaction would commit advances the ledger.
abbrev pub Keeps {ℓ} : {A : Type ℓ} → Ledger → Result Error (A × Ledger) → Type 0
Keeps l r = Ensures (λ (x : _ × Ledger). Advances l x.1) r

pub stay : (l : Ledger) → IsSound l → Advances l l
stay l v = (v, Evolves-refl l.sessions, λ ev. ev)

pub bind-Ensures {ℓ κ η θ} :
    {A : Type ℓ} {B : Type κ} (P : A → Type η) (Q : B → Type θ) (m : Result Error A)
    (f : A → Result Error B)
    → Ensures P m
    → ((a : A) → P a → Ensures Q (f a))
    → Ensures Q (m >>= f)
bind-Ensures P Q (ok a) f h k = k a h
bind-Ensures P Q (err e) f h k = tt

pub guard-Ensures {ℓ κ} :
    {B : Type ℓ} (Q : B → Type κ) (b : Bool) (e : Error) (r : Result Error B)
    → (b ≡ false → Ensures Q r)
    → Ensures Q (raise_if b e >> r)
guard-Ensures Q true e r k = tt
guard-Ensures Q false e r k = k refl

pub lookup-Ensures {ℓ κ η} :
    {A : Type ℓ} {B : Type κ} (Q : B → Type η) (o : Option A) (e : Error) (f : A → Result Error B)
    → ((a : A) → o ≡ some a → Ensures Q (f a))
    → Ensures Q (or_raise o e >>= f)
lookup-Ensures Q none e f k = tt
lookup-Ensures Q (some a) e f k = k a refl

pub checked {ℓ} : {A : Type ℓ} (m : Result Error A) → Ensures (λ _. Unit {0}) m
checked (ok a) = tt
checked (err e) = tt

pub if_Ensures {ℓ κ} :
    {A : Type ℓ} (Q : A → Type κ) (b : Bool) (x y : Result Error A)
    → (b ≡ true → Ensures Q x)
    → (b ≡ false → Ensures Q y)
    → Ensures Q (if b then x else y)
if_Ensures Q true x y f g = f refl
if_Ensures Q false x y f g = g refl

-- An insert that a constraint may refuse, and what follows it.
pub if_bind {ℓ κ η} :
    {A : Type ℓ} {B : Type κ} (Q : B → Type η) (b : Bool) (e : Error) (a : A)
    (f : A → Result Error B)
    → Ensures Q (f a)
    → Ensures Q ((if b then err e else ok a) >>= f)
if_bind Q true e a f h = tt
if_bind Q false e a f h = h

pub commit-Advances {ℓ} :
    {A : Type ℓ} (r : Result Error (A × Ledger)) (l : Ledger)
    → IsSound l
    → Keeps l r
    → Advances l (commit r l).1
commit-Advances (ok (a, l')) l v k = k
commit-Advances (err e) l v k = stay l v

-- The join finds the termination and its session.
pub context-Ensures {ℓ κ} :
    {B : Type ℓ} (Q : B → Type κ) (k : String) (l : Ledger)
    (f : Termination × Session → Result Error B)
    → ((t : Termination) (s : Session)
        → find_termination k l ≡ some t
        → find_session t.session_id l ≡ some s
        → Ensures Q (f (t, s)))
    → Ensures Q (termination_context k l >>= f)
unfolding termination_context
context-Ensures Q k l f h = elim (Option-cases (find_termination k l)) [
  | inl e ↦ rw (e, termination_context) tt
  | inr (t, e) ↦ elim (Option-cases (find_session t.session_id l)) [
    | inl g ↦ rw (e, termination_context, g) tt
    | inr (s, g) ↦ rw (e, termination_context, g) (h t s e g)
  ]
]

-- The insert finds the key free, and puts the row in front.
pub insert-Ensures {ℓ κ} :
    {B : Type ℓ} (Q : B → Type κ) (t : Termination) (l : Ledger) (f : Ledger → Result Error B)
    → (find_termination t.termination_id l ≡ none
        → Ensures Q (f (record l { terminations = t ∷ l.terminations })))
    → Ensures Q (insert_termination t l >>= f)
unfolding insert_termination
insert-Ensures Q t l f h = elim (Option-cases (find_termination t.termination_id l)) [
  | inr (_, e) ↦ rw (e, insert_termination) tt
  | inl e ↦
      elim (Option-cases
        (find (is_request t.session_id t.generation t.request_id) l.terminations)) [
          | inr (_, g) ↦ rw (e, insert_termination, is_request, g) tt
          | inl g ↦ rw (e, insert_termination, is_request, g) (h e)
        ]
]
