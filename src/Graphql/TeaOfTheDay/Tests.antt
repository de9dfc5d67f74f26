-- ===== src/Graphql/TeaOfTheDay/Tests.antt =====
-- Instances of the theorems on the tea of the day.
use mathlib.Core.List.{flat_map}
use tea_elephant_memory.Prelude.{
  ℕ, ◌≡◌, refl, none, some, List, [], ◌∷◌, inl, if◌then◌else◌, In, pos, ◌+ℤ◌, sort, keep, bytes_eq,
  arith,
}
use tea_elephant_memory.Clock.{Time, before}
use tea_elephant_memory.Store.{Db, ok, statement, find}
use tea_elephant_memory.Adapter.{nullable_string}
use tea_elephant_memory.Domain.{string_to_beverage_type}
use tea_elephant_memory.Adapter.Collections.{collection, collections, collection_records}
use tea_elephant_memory.Store.Records.{list_collections, get_collection, list_collection_records}
use tea_elephant_memory.Consumption.{Consumption}
use tea_elephant_memory.Models.{QrRecord, from_common_tea, from_beverage_type}
use tea_elephant_memory.Managers.Collections as Manager
use tea_elephant_memory.TeaOfTheDayCache.{next_midnight}
use tea_elephant_memory.TeaOfTheDayCache as Cache
use tea_elephant_memory.Auth.{ValidUser}
use tea_elephant_memory.Auth.Requests.{Principals, get_user}
use tea_elephant_memory.Graphql.TeaOfTheDay.{Services, State, tea_of_the_day}
use tea_elephant_memory.Graphql.TeaOfTheDay.Listing.{listed}
use tea_elephant_memory.Graphql.TeaOfTheDay.Choice.{IsEarliest}
use tea_elephant_memory.Graphql.TeaOfTheDay.Answers.{IsBest, answered, tea_of_the_day_lem}

-- Names as they are, equal scores, days of a thousand nanoseconds, and a list of what was drunk.
abbrev services : Services (List Consumption)
services = record {
  normal = λ name. name;
  context_scores = λ names now. (b'A' ∷ [], pos 60) ∷ (b'B' ∷ [], pos 60) ∷ [];
  recent = λ user_id since s. s;
  record_consumption = λ user_id tea_id now s. record { tea_id = tea_id; time = now } ∷ s;
  location = record {
    day = λ t. if before t (pos 1000) then pos 0 else pos 1;
    midnight = λ d. if before d (pos 1) then pos 0 else pos 1000;
  };
}

abbrev shelves : Db
shelves = record {
  users = record { id = 5; apple_id = b'x' ∷ []; created_at = pos 1 } ∷ [];
  teas =
      record {
        id = 6;
        name = b'A' ∷ [];
        type = b't' ∷ b'e' ∷ b'a' ∷ [];
        description = none;
        created_at = pos 2;
      }
      ∷ record {
        id = 7;
        name = b'B' ∷ [];
        type = b't' ∷ b'e' ∷ b'a' ∷ [];
        description = none;
        created_at = pos 2;
      }
      ∷ [];
  tag_categories = [];
  tags = [];
  tea_tags = [];
  qr_records =
      record {
        id = 8;
        tea_id = 6;
        boiling_temp = pos 95;
        expiration_date = pos 900;
        created_at = pos 30;
      }
      ∷ record {
        id = 9;
        tea_id = 6;
        boiling_temp = pos 95;
        expiration_date = pos 800;
        created_at = pos 31;
      }
      ∷ record {
        id = 10;
        tea_id = 7;
        boiling_temp = pos 95;
        expiration_date = pos 850;
        created_at = pos 32;
      }
      ∷ [];
  collections = record { id = 3; user_id = 5; name = b'c' ∷ []; created_at = pos 40 } ∷ [];
  items =
      record { collection_id = 3; qr_id = 8 }
      ∷ record { collection_id = 3; qr_id = 9 }
      ∷ record { collection_id = 3; qr_id = 10 }
      ∷ [];
  devices = [];
  notifications = [];
  consumptions = [];
  faults = [];
}

abbrev drinker : ValidUser
drinker = record { id = 5; jwt = []; expired_at = pos 5000 }

abbrev signed_in : Principals
signed_in = record { user = some drinker; admin = none }

abbrev morning : State (List Consumption)
morning = record {
  db = shelves;
  cache = Cache.new_tea_of_the_day_cache;
  consumption = record { tea_id = 7; time = pos 90 } ∷ [];
}

abbrev tin : ℕ → ℕ → ℕ → Time → QrRecord
tin id tea_id name date = record {
  id = id;
  tea = record { id = tea_id; name = name ∷ []; type = b't' ∷ b'e' ∷ b'a' ∷ []; description = [] };
  bowling_temp = pos 95;
  expiration_date = date;
}

abbrev tins : List QrRecord
tins = tin 9 6 b'A' (pos 800) ∷ tin 10 7 b'B' (pos 850) ∷ tin 8 6 b'A' (pos 900) ∷ []

cols_lem :
    Manager.list 5 shelves ≡ (ok (record { id = 3; name = b'c' ∷ []; user_id = 5 } ∷ []), shelves)
unfolding Manager.list collections list_collections statement sort keep
cols_lem = refl

recs_lem :
    listed 5 (record { id = 3; name = b'c' ∷ []; user_id = 5 } ∷ []) shelves ≡ (ok tins, shelves)
unfolding listed Manager.list_records collection get_collection statement find collection_records
    list_collection_records sort flat_map keep from_common_tea from_beverage_type nullable_string
    string_to_beverage_type bytes_eq
recs_lem = refl

tea_of_the_day_lem_example :
    (rec : QrRecord) × In rec tins
    × IsEarliest tins rec
    × IsBest services 5 (pos 100) tins morning.consumption rec
    × (tea_of_the_day services signed_in (pos 100) morning ≡ (
      ok (record { tea = rec; date = pos 100 }),
      answered services 5 (pos 100) rec shelves morning,
    ))
    × (tea_of_the_day services signed_in
          (pos 999)
          (answered services 5 (pos 100) rec shelves morning)
        ≡ (
          ok (record { tea = rec; date = pos 100 }),
          answered services 5 (pos 100) rec shelves morning,
        ))
unfolding get_user Cache.get Cache.new_tea_of_the_day_cache next_midnight ◌+ℤ◌
tea_of_the_day_lem_example =
    tea_of_the_day_lem services signed_in (pos 100) (pos 999) morning drinker
      (record { id = 3; name = b'c' ∷ []; user_id = 5 } ∷ []) tins (tin 9 6 b'A' (pos 800)) shelves
      shelves refl refl cols_lem recs_lem (inl refl)
      (ground arith, (ground arith, (ground arith, tt))) refl
