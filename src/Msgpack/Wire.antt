-- ===== src/Msgpack/Wire.antt =====
-- The values that the format of msgpack.go can hold, and how deep they are.
use eavt_sql.Prelude.{ℕ, suc, ◌+◌, ◌^◌, ◌<◌, length}
use eavt_sql.Bytes.Int.{pos, negsuc, IsInt64}
use eavt_sql.Msgpack.Value.{
  Value, Values, Pairs, nil, bool, int, float, str, bin, array, map, ext, raw, no_values, value,
  no_pairs, pair, count_values, count_pairs,
}

-- The values that the format can hold: integers of 64 bits, lengths and counts below 2 ^ 32, and
-- the type of an extension in one byte.
unfoldable mutual
  unfolding count_values count_pairs

  pub IsWire : Value → Type 0
  IsWire nil = Unit
  IsWire (bool b) = Unit
  IsWire (int n) = IsInt64 n
  IsWire (float x) = x < 2 ^ 64
  IsWire (str s) = length s < 2 ^ 32
  IsWire (bin b) = length b < 2 ^ 32
  IsWire (array vs) = (count_values vs < 2 ^ 32) × AreWire vs
  IsWire (map ps) = (count_pairs ps < 2 ^ 32) × ArePairs ps
  IsWire (ext (pos ty) bs) = (ty < 256) × (length bs < 2 ^ 32)
  IsWire (ext (negsuc ty) bs) = ⊥
  IsWire (raw bs) = ⊥

  pub AreWire : Values → Type 0
  AreWire no_values = Unit
  AreWire (value v vs) = IsWire v × AreWire vs

  pub ArePairs : Pairs → Type 0
  ArePairs no_pairs = Unit
  ArePairs (pair k v ps) = IsWire k × IsWire v × ArePairs ps

-- How deep the values nest.
unfoldable mutual
  pub depth : Value → ℕ
  depth nil = 0
  depth (bool b) = 0
  depth (int n) = 0
  depth (float x) = 0
  depth (str s) = 0
  depth (bin b) = 0
  depth (array vs) = suc (depth_values vs)
  depth (map ps) = suc (depth_pairs ps)
  depth (ext ty bs) = 0
  depth (raw bs) = 0

  pub depth_values : Values → ℕ
  depth_values no_values = 0
  depth_values (value v vs) = depth v + depth_values vs

  pub depth_pairs : Pairs → ℕ
  depth_pairs no_pairs = 0
  depth_pairs (pair k v ps) = depth k + depth v + depth_pairs ps
