-- ===== src/Prelude/Maps.antt =====
-- Go's `map[string]V`, as an association list in some order. Where the source ranges over a map,
-- the model goes through the list: any order of the entries is the order of some such list.
use Prim.Native.Nat.{◌+◌, ◌≤◌}
use Prim.Native.String.{String}
use mathlib.Core.Path.{◌≡◌, refl}
use mathlib.Core.Option.{Option, none, some}
use mathlib.Core.List.{List, [], ◌∷◌}
use native.Mathlib.Omega.{arith}
use text.Mathlib.TextEquality.{eq_iff}
use mproxy.Prelude.Tests.{str_eq, if◌then◌else◌}
use mproxy.Prelude.Lists.{length}

abbrev pub Dict {ℓ} : Type ℓ → Type ℓ
Dict V = List (String × V)

module _ {ℓ} {V : Type ℓ} where
  unfoldable pub lookup : String → Dict V → Option V
  lookup key [] = none
  lookup key ((other, value) ∷ rest) = if str_eq other key then some value else lookup key rest

  unfoldable pub insert : String → V → Dict V → Dict V
  insert key value [] = (key, value) ∷ []
  insert key value ((other, old) ∷ rest) =
      if str_eq other key then (key, value) ∷ rest else (other, old) ∷ insert key value rest

  unfoldable pub delete : String → Dict V → Dict V
  delete key [] = []
  delete key ((other, old) ∷ rest) =
      let kept = delete key rest in if str_eq other key then kept else (other, old) ∷ kept

  pub length-delete-le : (key : String) (d : Dict V) → length (delete key d) ≤ length d
  unfolding delete
  length-delete-le key [] = omega arith
  length-delete-le key ((other, old) ∷ rest) = ground (arith, length-delete-le key rest)

  pub lookup-delete :
      (key asked : String) (d : Dict V)
      → lookup asked (delete key d) ≡ (if str_eq key asked then none else lookup asked d)
  unfolding lookup delete
  lookup-delete key asked [] = ground (arith, eq_iff key asked)
  lookup-delete key asked ((other, old) ∷ rest) =
      ground (
        arith,
        lookup-delete key asked rest,
        eq_iff other asked,
        eq_iff key asked,
        eq_iff other key,
      )

  pub lookup-insert :
      (key asked : String) (value : V) (d : Dict V)
      → lookup asked (insert key value d)
        ≡ (if str_eq key asked then some value else lookup asked d)
  unfolding lookup insert
  lookup-insert key asked value [] = refl
  lookup-insert key asked value ((other, old) ∷ rest) = ground (
    arith,
    lookup-insert key asked value rest,
    eq_iff other asked,
    eq_iff key asked,
    eq_iff other key,
  )

  pub length-insert_new :
      (key : String) (value : V) (d : Dict V)
      → lookup key d ≡ none
      → length (insert key value d) ≡ length d + 1
  unfolding lookup insert
  length-insert_new key value [] absent = omega arith
  length-insert_new key value ((other, old) ∷ rest) absent =
      ground (arith, length-insert_new key value rest)

  pub length-insert_old :
      (key : String) (value old : V) (d : Dict V)
      → lookup key d ≡ some old
      → length (insert key value d) ≡ length d
  unfolding lookup insert
  length-insert_old key value old [] present = cc
  length-insert_old key value old ((other, first) ∷ rest) present =
      ground (arith, length-insert_old key value old rest)
