-- ===== src/Base/Maps.antt =====
-- `dict` as an association list: a write to a known key keeps its place, a new key goes last.
use mathlib.Core.Path.{◌≡◌, refl}
use mathlib.Core.Option.{Option, none, some}
use mathlib.Core.List.{List, [], ◌∷◌}
use native.Mathlib.Omega.{arith}
use local_dafa.Base.Tests.{if◌then◌else◌, or_else}
use local_dafa.Base.Equal.{Equality, ◌==◌, eq_iff}

abbrev pub Dict {ℓ κ} : Type ℓ → Type κ → Type (ℓ ⊔ κ)
Dict K V = List (K × V)

module _ {ℓ κ} {K : Type ℓ} {V : Type κ} ⦃e : Equality K⦄ where
  unfoldable pub lookup : K → Dict K V → Option V
  lookup key [] = none
  lookup key ((name, old) ∷ rest) = if name == key then some old else lookup key rest

  unfoldable pub insert : K → V → Dict K V → Dict K V
  insert key new [] = (key, new) ∷ []
  insert key new ((name, old) ∷ rest) =
      if name == key then (name, new) ∷ rest else (name, old) ∷ insert key new rest

  -- `m.get(k, d)`
  unfoldable pub get : K → V → Dict K V → V
  get key default m = or_else (lookup key m) default

  pub lookup-insert :
      (key probe : K) (new : V) (entries : Dict K V)
      → lookup probe (insert key new entries)
        ≡ (if key == probe then some new else lookup probe entries)
  unfolding lookup insert
  lookup-insert key probe new [] = refl
  lookup-insert key probe new ((name, old) ∷ rest) = ground (
    arith,
    lookup-insert key probe new rest,
    eq_iff name probe,
    eq_iff name key,
    eq_iff key probe,
  )

  pub get-insert :
      (k j : K) (v d : V) (m : Dict K V)
      → get j d (insert k v m) ≡ (if k == j then v else get j d m)
  unfolding get
  get-insert k j v d m = ground (arith, lookup-insert k j v m)
