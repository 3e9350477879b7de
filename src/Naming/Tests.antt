-- ===== src/Naming/Tests.antt =====
-- A name that is too long, and the theorem at it.
use dbwarden.Common.{◌≤◌, ◌≡◌, refl, Text, text_eq, text_in, codes, length, arith}
use dbwarden.Naming.Truncate.{
  singular_to_plural, plural_in, pluralize, op_words, split_low, join_low, operation_words,
  take_chars, fit, truncate,
}
use dbwarden.Naming.TruncateLaws.{length-truncate}

naming : Unit {0}
unfolding text_eq text_in singular_to_plural plural_in pluralize op_words split_low operation_words
    take_chars fit truncate
naming = tt

plural : pluralize (codes "add_index") ≡ codes "add_indexes"
unfolding naming
plural = refl

-- 80 characters
abbrev long_name : Text
long_name = codes "add_customer_shipping_addresses_with_a_description_that_goes_on_and_on_and_on_xy"

cut :
    truncate long_name
    ≡ codes "add_customer_shipping_addresses_with_a_description_that_goes_on_and_on_a"
unfolding naming
cut = refl

short_words : length (join_low (operation_words (split_low long_name)).0) ≤ 72
unfolding naming
short_words = omega arith

length-truncate_example : length (truncate long_name) ≤ 72
length-truncate_example = length-truncate long_name short_words
