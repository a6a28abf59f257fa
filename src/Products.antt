-- ===== src/Products.antt =====
-- The product catalogue of src/app/products.py.
use ai_text.Prelude.{
  ℕ, String, Bool, true, false, Option, none, some, List, [], ◌∷◌, str_eq, if◌then◌else◌,
}
use ai_text.Database.{PaymentChannel, apple_storekit, adapty, cloudpayments}

pub data ProductKind : Type 0 where
  subscription tokens : ProductKind

pub record Product : Type 0 where
  pub product_id : String
  pub kind : ProductKind
  pub credits : ℕ
  pub channels : List PaymentChannel
  pub title : String
  pub period : Option String

-- The mapping that `get_products()` returns.
abbrev pub Catalogue : Type 0
Catalogue = List (String × Product)

unfoldable pub find_product : Catalogue → String → Option Product
find_product [] id = none
find_product ((k, p) ∷ c) id = if str_eq k id then some p else find_product c id

abbrev pub same_channel : PaymentChannel → PaymentChannel → Bool
same_channel apple_storekit apple_storekit = true
same_channel adapty adapty = true
same_channel cloudpayments cloudpayments = true
same_channel _ _ = false

-- `channel in channels`
unfoldable pub sells_in : PaymentChannel → List PaymentChannel → Bool
sells_in channel [] = false
sells_in channel (c ∷ cs) = if same_channel channel c then true else sells_in channel cs

-- `get_products().get(product_id) if product_id else None`
unfoldable pub product_of : Catalogue → Option String → Option Product
product_of catalogue none = none
product_of catalogue (some id) = if str_eq id "" then none else find_product catalogue id

unfoldable pub credits_in : PaymentChannel → Option Product → Option ℕ
credits_in channel none = none
credits_in channel (some p) = if sells_in channel p.channels then some p.credits else none

unfoldable pub credits_for : Catalogue → Option String → PaymentChannel → Option ℕ
unfolding product_of credits_in
credits_for catalogue product_id channel = credits_in channel (product_of catalogue product_id)

unfoldable pub products_for_channel : Catalogue → PaymentChannel → List Product
products_for_channel [] channel = []
products_for_channel ((k, p) ∷ c) channel =
    let rest = products_for_channel c channel in
    if sells_in channel p.channels then p ∷ rest else rest
