-- ===== src/Prelude/Maps.antt =====
-- `HashMap` with byte keys. The program never iterates over one, so a map is its lookup function.
use mathlib.Core.Option.{Option, none, some}
use mathlib.Core.Bool.{Bool}
use zenth_dht.Prelude.Tests.{if◌then◌else◌}
use zenth_dht.Prelude.ByteStrings.{Bytes, bytes_eq}

module _ {ℓ} where
  abbrev pub Map : Type ℓ → Type ℓ
  Map V = Bytes → Option V

module _ {ℓ} {V : Type ℓ} where
  -- HashMap::new
  abbrev pub no_entries : Map V
  no_entries k = none

  -- map.insert(k, v)
  abbrev pub insert : Bytes → V → Map V → Map V
  insert k v m j = if bytes_eq k j then some v else m j

  -- map.remove(k)
  abbrev pub remove : Bytes → Map V → Map V
  remove k m j = if bytes_eq k j then none else m j

  -- An entry under the test of `retain`.
  abbrev pub kept : (V → Bool) → Option V → Option V
  kept p none = none
  kept p (some v) = if p v then some v else none

  -- map.retain(|_, v| p(v)), and `get(k).filter(p)` for one key
  abbrev pub retain_values : (V → Bool) → Map V → Map V
  retain_values p m j = kept p (m j)
