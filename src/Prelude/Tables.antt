-- ===== src/Prelude/Tables.antt =====
-- Tables of rows: what the SQL statements of the source do to one table.
use Prim.Native.Nat.{ℕ, ◌+◌}
use Prim.Native.String.{String}
use mathlib.Core.Path.{◌≡◌, sym, subst}
use mathlib.Core.Bool.{Bool, false}
use mathlib.Core.List.{List, [], ◌∷◌}
use mathlib.Core.Option
use mathlib.Core.Option.{Option, none, some}
use native.Mathlib.Omega.{arith}
use package.bosimao_release.Prelude.Tests.{◌=ₛ◌, if◌then◌else◌}

module _ {ℓ} {A : Type ℓ} where
  -- `SELECT … WHERE p` and `fetchone()`.
  abbrev pub find : (A → Bool) → List A → Option A
  find p [] = none
  find p (x ∷ xs) = if p x then some x else find p xs

  -- `UPDATE … SET f WHERE p`.
  abbrev pub update : (A → Bool) → (A → A) → List A → List A
  update p f [] = []
  update p f (x ∷ xs) = (if p x then f x else x) ∷ update p f xs

  -- `SELECT COUNT(*) … WHERE p`; also the `rowcount` of an update.
  abbrev pub count : (A → Bool) → List A → ℕ
  count p [] = 0
  count p (x ∷ xs) = (if p x then 1 else 0) + count p xs

-- A table with a text for its primary key.
module _ {ℓ} {A : Type ℓ} (key : A → String) where
  abbrev pub lookup : String → List A → Option A
  lookup k = find (λ a. key a =ₛ k)

  -- An update at one key, further limited by `p`, which leaves the key alone.
  pub lookup-update :
      (p : A → Bool) (f : A → A) (k j : String) (xs : List A)
      → ((a : A) → key (f a) ≡ key a)
      → lookup j (update (λ a. if key a =ₛ k then p a else false) f xs)
        ≡ (if k =ₛ j then Option.map (λ a. if p a then f a else a) (lookup j xs) else lookup j xs)
  lookup-update p f k j [] h = ground arith
  lookup-update p f k j (x ∷ xs) h = ground (arith, h x, lookup-update p f k j xs h)

  -- A row is found under its own key.
  pub key-lookup : (k : String) (xs : List A) (a : A) → lookup k xs ≡ some a → key a ≡ k
  key-lookup k [] a e = cc
  key-lookup k (x ∷ xs) a e = ground (arith, key-lookup k xs a)

  pub lookup_self :
      (k : String) (xs : List A) (a : A) → lookup k xs ≡ some a → lookup (key a) xs ≡ some a
  lookup_self k xs a e = subst (λ j. lookup j xs ≡ some a) (sym (key-lookup k xs a e)) e
