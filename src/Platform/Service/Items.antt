-- ===== src/Platform/Service/Items.antt =====
-- The items of a checkout: `validateCheckout` of internal/platform/service/orders.go.
use avito_kitchen.Base.{◌≡◌, ◌≤◌, Bool, true, false, List, [], ◌∷◌, Text, same, exists_row, arith}
use avito_kitchen.Platform.Domain.{OrderItemRequest}
use avito_kitchen.Platform.Service.{validate_items}
use avito_kitchen.Shared.Transaction.{ok}

-- Each item has a valid identifier that no other one has, and a quantity from 1 to 100.
abbrev pub AreSound : (Text → Bool) → List Text → List OrderItemRequest → Type 0
AreSound is_uuid seen [] = Unit
AreSound is_uuid seen (r ∷ rs) =
    (is_uuid r.menu_item_id ≡ true)
    × (1 ≤ r.quantity)
    × (r.quantity ≤ 100)
    × (exists_row (same r.menu_item_id) seen ≡ false)
    × AreSound is_uuid (r.menu_item_id ∷ seen) rs

-- Where the check of the items of a checkout finds no fault, each item has a valid identifier that
-- no item before it has, and a quantity from 1 to 100.
pub validate_items-AreSound :
    (is_uuid : Text → Bool) (seen : List Text) (items : List OrderItemRequest)
    → validate_items is_uuid seen items ≡ ok tt
    → AreSound is_uuid seen items
unfolding validate_items
validate_items-AreSound is_uuid seen [] h = tt
validate_items-AreSound is_uuid seen (r ∷ rs) h =
    ground (arith, validate_items-AreSound is_uuid (r.menu_item_id ∷ seen) rs)
