-- ===== src/Prelude/Maps.antt =====
-- JavaScript's `Map<string, V>`: an association list that keeps the order of insertion.
use Prim.Native.String.{String}
use mathlib.Core.Path.{◌≡◌, refl}
use mathlib.Core.Bool.{Bool, true, false}
use mathlib.Core.List.{List, [], ◌∷◌}
use mathlib.Core.Option.{Option, none, some}
use mathlib.Core.Logic.{inl, inr}
use native.Mathlib.Omega.{arith}
pub use text.Mathlib.Text.{◌==◌ as str_eq}
use text.Mathlib.TextEquality.{eq_iff}
use fixor.Prelude.Tests.{if◌then◌else◌, Bool-cases}

-- `Set<string>.has`, `Array.prototype.includes`.
abbrev pub includes : String → List String → Bool
includes k [] = false
includes k (x ∷ xs) = if str_eq x k then true else includes k xs

abbrev pub Map {ℓ} : Type ℓ → Type ℓ
Map V = List (String × V)

module _ {ℓ} {V : Type ℓ} where
  unfoldable pub get : String → Map V → Option V
  get k [] = none
  get k ((j, v) ∷ m) = if str_eq j k then some v else get k m

  unfoldable pub put : String → V → Map V → Map V
  put k v [] = (k, v) ∷ []
  put k v ((j, w) ∷ m) = if str_eq j k then (j, v) ∷ m else (j, w) ∷ put k v m

  -- `map.delete(k)`
  unfoldable pub remove : String → Map V → Map V
  remove k [] = []
  remove k ((j, v) ∷ m) = let rest = remove k m in if str_eq j k then rest else (j, v) ∷ rest

  pub get-put :
      (k j : String) (v : V) (m : Map V)
      → get j (put k v m) ≡ (if str_eq k j then some v else get j m)
  unfolding get put
  get-put k j v [] = refl
  get-put k j v ((i, w) ∷ m) = ground (arith, eq_iff k j, eq_iff i k, eq_iff i j, get-put k j v m)

  pub get-remove :
      (k j : String) (m : Map V) → get j (remove k m) ≡ (if str_eq k j then none else get j m)
  unfolding get remove
  get-remove k j [] = ground arith
  get-remove k j ((i, w) ∷ m) = ground (arith, eq_iff k j, eq_iff i k, eq_iff i j, get-remove k j m)

  pub get-empty : (k : String) → get k [] ≡ none
  unfolding get
  get-empty k = refl

module _ {ℓ} {V : Type ℓ} where
  -- Every key stands once, as in a `Map`.
  abbrev pub Distinct : Map V → Type ℓ
  Distinct [] = Unit
  Distinct ((k, v) ∷ m) = (get k m ≡ none) × Distinct m

  -- The loop `for (const [key, v] of map) if (!keep(v)) map.delete(key)`.
  unfoldable pub retain : (V → Bool) → Map V → Map V
  retain keep [] = []
  retain keep ((k, v) ∷ m) = let rest = retain keep m in if keep v then (k, v) ∷ rest else rest

  abbrev pub kept : (V → Bool) → Option V → Option V
  kept keep none = none
  kept keep (some v) = if keep v then some v else none

  pub put-Distinct : (k : String) (v : V) (m : Map V) → Distinct m → Distinct (put k v m)
  unfolding put get
  put-Distinct k v [] d = (refl, d)
  put-Distinct k v ((j, w) ∷ m) d =
      ground (arith, eq_iff j k, eq_iff k j, get-put k j v m, put-Distinct k v m d.1)

  get-retain-none :
      (keep : V → Bool) (j : String) (m : Map V) → get j m ≡ none → get j (retain keep m) ≡ none
  unfolding retain get
  get-retain-none keep j [] h = refl
  get-retain-none keep j ((k, v) ∷ m) h = ground (arith, get-retain-none keep j m)

  pub get-retain :
      (keep : V → Bool) (j : String) (m : Map V)
      → Distinct m
      → get j (retain keep m) ≡ kept keep (get j m)
  unfolding retain get
  get-retain keep j [] d = refl
  get-retain keep j ((k, v) ∷ m) d =
      ground (arith, eq_iff k j, get-retain keep j m d.1, get-retain-none keep j m)

module _ {ℓ} {V : Type ℓ} where
  pub retain-Distinct : (keep : V → Bool) (m : Map V) → Distinct m → Distinct (retain keep m)
  unfolding retain
  retain-Distinct keep [] d = tt
  retain-Distinct keep ((k, v) ∷ m) d = elim (Bool-cases (keep v)) [
    | inl yes' ↦ rw yes' (get-retain-none keep k m d.0, retain-Distinct keep m d.1)
    | inr no' ↦ rw no' (retain-Distinct keep m d.1)
  ]

pub ruleset map_laws = (get-put, get-remove, get-empty)
