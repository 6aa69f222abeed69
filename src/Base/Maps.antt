-- ===== src/Base/Maps.antt =====
-- `HashMap<String, V>` as an association list that never repeats a key.
use Prim.Native.String.{String}
use mathlib.Core.Path.{◌≡◌, refl}
use mathlib.Core.Bool.{false}
use mathlib.Core.List.{List, [], ◌∷◌}
use mathlib.Core.Option.{Option, none, some}
use native.Mathlib.Omega.{arith}
use text.Mathlib.Text.{◌==◌ as str_eq}
use text.Mathlib.TextEquality.{eq_iff}
use janitor.Base.Tests.{if◌then◌else◌, is_some}

abbrev pub Dict {ℓ} : Type ℓ → Type ℓ
Dict V = List (String × V)

module _ {ℓ} {V : Type ℓ} where
  -- `map.get(key)`
  unfoldable pub lookup : String → Dict V → Option V
  lookup key [] = none
  lookup key ((name, value) ∷ rest) = if str_eq name key then some value else lookup key rest

  -- `map.insert(key, value)`
  unfoldable pub insert : String → V → Dict V → Dict V
  insert key value ((name, old) ∷ rest) =
      if str_eq name key then (name, value) ∷ rest else (name, old) ∷ insert key value rest
  insert key value [] = (key, value) ∷ []

  -- `map.remove(key)`
  unfoldable pub remove : String → Dict V → Dict V
  remove key ((name, value) ∷ rest) =
      if str_eq name key then remove key rest else (name, value) ∷ remove key rest
  remove key [] = []

  -- Only the key that was written reads as something else.
  pub lookup-insert :
      (written read : String) (value : V) (rest : Dict V)
      → lookup read (insert written value rest)
        ≡ (if str_eq written read then some value else lookup read rest)
  unfolding lookup insert
  lookup-insert written read value ((name, old) ∷ rest) = ground (
    arith,
    lookup-insert written read value rest,
    eq_iff name written,
    eq_iff name read,
    eq_iff written read,
  )
  lookup-insert written read value [] = refl

  -- Only the key that was removed is missing.
  pub lookup-remove :
      (removed read : String) (rest : Dict V)
      → lookup read (remove removed rest) ≡ (if str_eq removed read then none else lookup read rest)
  unfolding lookup remove
  lookup-remove removed read ((name, value) ∷ rest) = ground (
    arith,
    lookup-remove removed read rest,
    eq_iff name removed,
    eq_iff name read,
    eq_iff removed read,
  )
  lookup-remove removed read [] = ground (arith, eq_iff removed read)

  -- No key stands twice, as in a `HashMap`.
  abbrev pub HasUniqueKeys : Dict V → Type 0
  HasUniqueKeys [] = Unit
  HasUniqueKeys ((k, v) ∷ m) = (is_some (lookup k m) ≡ false) × HasUniqueKeys m
