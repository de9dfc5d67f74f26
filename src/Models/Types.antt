-- ===== src/Models/Types.antt =====
-- The conversions of teas and of their types, from and to the GraphQL interface.
use tea_elephant_memory.Prelude.{zero, suc, negsuc, pos, ◌≡◌, refl, arith, bytes_eq}
use tea_elephant_memory.Domain.{BeverageType, Tea, beverage_type_string}
use tea_elephant_memory.Adapter.Teas.RoundTrip.{known_type, stored}
use tea_elephant_memory.Models.{
  from_beverage_type, to_beverage_type, from_common_tea, to_common_tea,
}

from_beverage_type-to : (b : BeverageType) → to_beverage_type (from_beverage_type b) ≡ known_type b
unfolding from_beverage_type to_beverage_type bytes_eq
from_beverage_type-to (pos zero) = refl
from_beverage_type-to (pos (suc zero)) = refl
from_beverage_type-to (pos (suc (suc zero))) = refl
from_beverage_type-to (pos (suc (suc (suc zero)))) = refl
from_beverage_type-to (pos (suc (suc (suc (suc n))))) = ground arith
from_beverage_type-to (negsuc n) = ground arith

from_beverage_type-text : (b : BeverageType) → from_beverage_type b ≡ beverage_type_string b
unfolding from_beverage_type beverage_type_string
from_beverage_type-text (pos zero) = refl
from_beverage_type-text (pos (suc zero)) = refl
from_beverage_type-text (pos (suc (suc zero))) = refl
from_beverage_type-text (pos (suc (suc (suc zero)))) = refl
from_beverage_type-text (pos (suc (suc (suc (suc n))))) = ground arith
from_beverage_type-text (negsuc n) = ground arith

-- A tea that goes out by the GraphQL model and comes back is the one that the storage would give back:
-- the same, but for an unknown type, which becomes other. The model names a type as the storage does.
pub to_common_tea-from_common_tea :
    (t : Tea)
    → (to_common_tea (from_common_tea t) ≡ record { id = t.id; tea_data = stored t.tea_data })
      × ((b : BeverageType) → from_beverage_type b ≡ beverage_type_string b)
unfolding to_common_tea from_common_tea
to_common_tea-from_common_tea t = (rw (from_beverage_type-to t.type), from_beverage_type-text)
