-- ===== src/Keys/Tests.antt =====
-- Instances of the theorems on the keys, and test runs.
use tea_elephant_memory.Prelude.{
  ℕ, ◌<◌, ◌≡◌, ◌≢◌, arith, ◌==◌, ◌&&◌, ◌||◌, ltb, none, some, [], ◌∷◌, pos, negsuc, bytes_lt,
}
use tea_elephant_memory.Keys.{consumption_by_user_id, consumption_key, parse_consumption_key}
use tea_elephant_memory.Keys.BigEndian.{bound}
use tea_elephant_memory.Keys.Consumptions.{
  read_time, parse_consumption_key-consumption_key, bytes_lt-consumption_key,
}
use tea_elephant_memory.Keys.Layout.{
  begins, tags_by_tea, tea_tag_pair, teas_by_tag, tag_tea_pair, records_by_collection,
  collections_teas, user_collections, collection_key, tags_by_category, tags_by_name_and_category,
  scan_isolated,
}

parse_consumption_key-consumption_key_example :
    (parse_consumption_key (consumption_by_user_id 5) (consumption_key 5 (negsuc 0) 300)
      ≡ some (read_time (negsuc 0), 300))
    × ((other : ℕ)
        → other < bound 16
        → other ≢ 5
        → parse_consumption_key (consumption_by_user_id other) (consumption_key 5 (negsuc 0) 300)
          ≡ none)
parse_consumption_key-consumption_key_example =
    parse_consumption_key-consumption_key 5 (negsuc 0) 300 (omega arith) (omega arith) (omega arith)

bytes_lt-consumption_key_example :
    bytes_lt (consumption_key 5 (pos 255) 300) (consumption_key 5 (pos 256) 2)
    ≡ (ltb 255 256 || (255 == 256 && ltb 300 2))
bytes_lt-consumption_key_example =
    bytes_lt-consumption_key 5 255 256 300 2 (omega arith) (omega arith) (omega arith) (omega arith)

scan_isolated_example :
    (begins (tags_by_tea 7) (tea_tag_pair 263 9) ≡ (263 == 7))
    × (begins (teas_by_tag 7) (tag_tea_pair 263 9) ≡ (263 == 7))
    × (begins (records_by_collection 7) (collections_teas 263 9) ≡ (263 == 7))
    × (begins (user_collections 7) (collection_key 9 263) ≡ (263 == 7))
    × (begins (tags_by_category 7) (tags_by_name_and_category 263 (b'n' ∷ [])) ≡ (263 == 7))
scan_isolated_example = scan_isolated 263 7 9 (b'n' ∷ []) (omega arith) (omega arith)
