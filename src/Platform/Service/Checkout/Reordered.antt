-- ===== src/Platform/Service/Checkout/Reordered.antt =====
-- The request hash does not depend on the order of the items: `checkoutHash` of
-- internal/platform/service/orders.go.
use avito_kitchen.Base.{
  ◌≡◌, refl, sym, ◌∙◌, ap, Bool, true, false, List, [], ◌∷◌, Text, same, same_comm, exists_row,
  arith,
}
use avito_kitchen.Platform.Domain.{OrderItemRequest}
use avito_kitchen.Platform.Service.Checkout.{
  CheckoutRequest, Coding, is_before, insert_item, sorted, checkout_hash,
}

-- The order of texts is linear.
is_before_trans :
    (a b c : Text) → is_before a b ≡ true → is_before b c ≡ true → is_before a c ≡ true
unfolding is_before
is_before_trans [] [] c h k = cc
is_before_trans [] (y ∷ ys) [] h k = cc
is_before_trans [] (y ∷ ys) (z ∷ zs) h k = refl
is_before_trans (x ∷ xs) [] c h k = cc
is_before_trans (x ∷ xs) (y ∷ ys) [] h k = cc
is_before_trans (x ∷ xs) (y ∷ ys) (z ∷ zs) h k = ground (arith, is_before_trans xs ys zs)

is_before_asym : (a b : Text) → is_before a b ≡ true → is_before b a ≡ false
unfolding is_before
is_before_asym [] [] h = refl
is_before_asym [] (y ∷ ys) h = refl
is_before_asym (x ∷ xs) [] h = cc
is_before_asym (x ∷ xs) (y ∷ ys) h = ground (arith, is_before_asym xs ys)

is_before_total : (a b : Text) → same a b ≡ false → is_before a b ≡ false → is_before b a ≡ true
unfolding is_before
is_before_total [] [] n h = ground arith
is_before_total [] (y ∷ ys) n h = cc
is_before_total (x ∷ xs) [] n h = refl
is_before_total (x ∷ xs) (y ∷ ys) n h = ground (arith, is_before_total xs ys)

-- Two items in either order go to the same places.
insert_item_comm :
    (x y : OrderItemRequest) (l : List OrderItemRequest)
    → same x.menu_item_id y.menu_item_id ≡ false
    → insert_item x (insert_item y l) ≡ insert_item y (insert_item x l)
unfolding insert_item
insert_item_comm x y [] n = ground (
  arith,
  is_before_asym x.menu_item_id y.menu_item_id,
  is_before_total x.menu_item_id y.menu_item_id n,
)
insert_item_comm x y (z ∷ zs) n = ground (
  arith,
  insert_item_comm x y zs n,
  is_before_asym x.menu_item_id y.menu_item_id,
  is_before_total x.menu_item_id y.menu_item_id n,
  is_before_trans z.menu_item_id x.menu_item_id y.menu_item_id,
  is_before_trans z.menu_item_id y.menu_item_id x.menu_item_id,
)

-- The same items in another order.
pub data Reordered : List OrderItemRequest → List OrderItemRequest → Type 0 where
  nothing : Reordered [] []
  kept :
      (x : OrderItemRequest) {xs ys : List OrderItemRequest}
      → Reordered xs ys
      → Reordered (x ∷ xs) (x ∷ ys)
  swapped :
      (x y : OrderItemRequest) {xs : List OrderItemRequest} → Reordered (x ∷ y ∷ xs) (y ∷ x ∷ xs)
  further : {xs ys zs : List OrderItemRequest} → Reordered xs ys → Reordered ys zs → Reordered xs zs

abbrev is_item : Text → OrderItemRequest → Bool
is_item id i = same id i.menu_item_id

-- No two items share an identifier.
abbrev pub AreUnique : List OrderItemRequest → Type 0
AreUnique [] = Unit
AreUnique (x ∷ xs) = (exists_row (is_item x.menu_item_id) xs ≡ false) × AreUnique xs

exists_row-Reordered :
    (p : OrderItemRequest → Bool) {xs ys : List OrderItemRequest}
    → Reordered xs ys
    → exists_row p xs ≡ exists_row p ys
exists_row-Reordered p nothing = refl
exists_row-Reordered p (kept x r) = ground (arith, exists_row-Reordered p r)
exists_row-Reordered p (swapped x y) = ground arith
exists_row-Reordered p (further r s) = exists_row-Reordered p r ∙ exists_row-Reordered p s

Reordered-AreUnique :
    {xs ys : List OrderItemRequest} → Reordered xs ys → AreUnique xs → AreUnique ys
Reordered-AreUnique nothing h = tt
Reordered-AreUnique (kept x r) h =
    (sym (exists_row-Reordered (is_item x.menu_item_id) r) ∙ h.0, Reordered-AreUnique r h.1)
Reordered-AreUnique (swapped x y) h =
    (ground (arith, same_comm x.menu_item_id y.menu_item_id), (ground arith, h.1.1))
Reordered-AreUnique (further r s) h = Reordered-AreUnique s (Reordered-AreUnique r h)

sorted-Reordered :
    {xs ys : List OrderItemRequest} → Reordered xs ys → AreUnique xs → sorted xs ≡ sorted ys
unfolding sorted
sorted-Reordered nothing h = refl
sorted-Reordered (kept x r) h = ap (insert_item x) (sorted-Reordered r h.1)
sorted-Reordered (swapped x y {xs}) h = insert_item_comm x y (sorted xs) (ground arith)
sorted-Reordered (further r s) h =
    sorted-Reordered r h ∙ sorted-Reordered s (Reordered-AreUnique r h)

-- Two checkouts that differ in the order of their items alone have one request hash, where no two
-- items share an identifier.
pub checkout_hash-Reordered :
    (coding : Coding) (request : CheckoutRequest) (items : List OrderItemRequest)
    → AreUnique request.items
    → Reordered request.items items
    → checkout_hash coding (record request { items = items }) ≡ checkout_hash coding request
unfolding checkout_hash
checkout_hash-Reordered coding request items unique r =
    ap (λ is. coding.digest (record request { items = is })) (sym (sorted-Reordered r unique))
