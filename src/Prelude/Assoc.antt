-- ===== src/Prelude/Assoc.antt =====
-- Redis keys and their values: an association list with at most one reading for a key.
use the_bureau.Prelude.Tests.{if◌then◌else◌}
use the_bureau.Prelude.Texts.{str_eq}
use mathlib.Core.Path.{◌≡◌, refl}
use mathlib.Core.Option.{Option, none, some}
use mathlib.Core.List.{List, [], ◌∷◌}
use native.Mathlib.Omega.{arith}
use Prim.Native.String.{String}
use text.Mathlib.TextEquality.{eq_iff}

module _ {ℓ} {V : Type ℓ} where
  -- `GET`
  unfoldable pub lookup : String → List (String × V) → Option V
  lookup key [] = none
  lookup key ((stored, value) ∷ db) = if str_eq stored key then some value else lookup key db

  -- `DEL`
  unfoldable pub delete : String → List (String × V) → List (String × V)
  delete key [] = []
  delete key ((stored, value) ∷ db) =
      if str_eq stored key then delete key db else (stored, value) ∷ delete key db

  -- `SET`
  unfoldable pub insert : String → V → List (String × V) → List (String × V)
  insert key new [] = (key, new) ∷ []
  insert key new ((stored, value) ∷ db) =
      if str_eq stored key then (key, new) ∷ db else (stored, value) ∷ insert key new db

  pub lookup-delete :
      (key other : String) (db : List (String × V))
      → lookup other (delete key db) ≡ (if str_eq key other then none else lookup other db)
  unfolding lookup delete
  lookup-delete key other [] = ground arith
  lookup-delete key other ((stored, value) ∷ db) =
      ground (
        arith,
        eq_iff key other,
        eq_iff stored key,
        eq_iff stored other,
        lookup-delete key other db,
      )

  pub lookup-insert :
      (key other : String) (new : V) (db : List (String × V))
      → lookup other (insert key new db) ≡ (if str_eq key other then some new else lookup other db)
  unfolding lookup insert
  lookup-insert key other new [] = refl
  lookup-insert key other new ((stored, value) ∷ db) = ground (
    arith,
    lookup-insert key other new db,
    eq_iff stored other,
    eq_iff stored key,
    eq_iff key other,
  )
