-- ===== src/Tests/Commands.antt =====
-- The commands of the memcached protocols and the key list at concrete keys.
use memtier_skewsyn.Prelude.{ℕ, ◌≡◌, List, Bytes, [], ◌∷◌, arith, codes, get_elem?}
use memtier_skewsyn.Protocol.Keylist.{Keylist, added, new_keylist, get_key}
use memtier_skewsyn.Protocol.Keylist.Reads.{add_keys, get_key-add_keys}

abbrev two_keys : List Bytes
two_keys = codes "k1" ∷ codes "k2" ∷ []

get_key-add_keys_example :
    (k : Keylist) × (add_keys two_keys (added (new_keylist 3)) ≡ added k)
    × ((i : ℕ) → get_key i k ≡ get_elem? two_keys i)
get_key-add_keys_example =
    get_key-add_keys 3 two_keys (omega arith) (omega arith) (omega arith, (omega arith, tt))
