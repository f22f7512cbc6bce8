-- ===== src/Config.antt =====
-- Config/config.go and Config/hash.go: the global `config.Conf` and the places on the ring. The
-- hash `murmur3.Sum32` is a third-party package, so the configuration carries it as `sum32`.
use rain_strom_distributed_s.Prelude.{
  ℕ, zero, suc, ◌%◌, ◌^◌, ◌<◌, String, ◌≡◌, Option, none, some, ◌>>=◌, List, get_elem?, arith,
}

pub record Config : Type 0 where
  pub server : List String
  pub node_id : ℕ
  pub peer_id : ℕ
  pub sum32 : String → ℕ

-- `hash32 & 0x7FF` keeps the low eleven bits.
unfoldable pub get_mbits_of_hash : Config → String → ℕ
get_mbits_of_hash c text = c.sum32 text % 2 ^ 11

unfoldable pub get_server_id_in_ring : Config → String → ℕ
unfolding get_mbits_of_hash
get_server_id_in_ring c addr = get_mbits_of_hash c addr

unfoldable pub get_file_hash_id : Config → String → ℕ
unfolding get_mbits_of_hash
get_file_hash_id c name = get_mbits_of_hash c name

-- `Conf.Server[nodeId-1]`, which panics on the node id 0 and past the end.
unfoldable pub server_of : Config → ℕ → Option String
server_of c zero = none
server_of c (suc i) = get_elem? c.server i

-- `GetServerIdInRing(Conf.Server[nodeId-1])`
unfoldable pub ring_id : Config → ℕ → Option ℕ
unfolding server_of get_server_id_in_ring
ring_id c n = do addr ← server_of c n; some (get_server_id_in_ring c addr)

-- A place on the ring is below 2048.
pub ring_id-lt : (c : Config) (n p : ℕ) → ring_id c n ≡ some p → p < 2 ^ 11
unfolding ring_id
ring_id-lt c n p h = ground arith
