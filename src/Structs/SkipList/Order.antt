-- ===== src/Structs/SkipList/Order.antt =====
-- The keys of a skip list are in a total order.
use libnumakit.Prelude.{ℕ, ◌≡◌, refl, true, false, List, [], ◌∷◌, length, arith}
use libnumakit.Structs.SkipList.{memcmp_lt, key_lt, keys_equal}

pub keys_equal_eq : (a b : List ℕ) → keys_equal a b ≡ true → a ≡ b
unfolding keys_equal
keys_equal_eq [] [] e = refl
keys_equal_eq [] (y ∷ b) e = cc
keys_equal_eq (x ∷ a) [] e = cc
keys_equal_eq (x ∷ a) (y ∷ b) e = ground (arith, keys_equal_eq a b)

pub keys_equal_self : (a : List ℕ) → keys_equal a a ≡ true
unfolding keys_equal
keys_equal_self [] = refl
keys_equal_self (x ∷ a) = ground (arith, keys_equal_self a)

memcmp_lt_trans :
    (a b c : List ℕ) → memcmp_lt a b ≡ true → memcmp_lt b c ≡ true → memcmp_lt a c ≡ true
unfolding memcmp_lt
memcmp_lt_trans [] b c h h' = cc
memcmp_lt_trans (x ∷ a) [] c h h' = cc
memcmp_lt_trans (x ∷ a) (y ∷ b) [] h h' = cc
memcmp_lt_trans (x ∷ a) (y ∷ b) (z ∷ c) h h' = ground (arith, memcmp_lt_trans a b c)

memcmp_lt_total :
    (a b : List ℕ) → length a ≡ length b → memcmp_lt a b ≡ false → memcmp_lt b a ≡ false → a ≡ b
unfolding memcmp_lt
memcmp_lt_total [] [] e h h' = refl
memcmp_lt_total [] (y ∷ b) e h h' = absurd (omega arith)
memcmp_lt_total (x ∷ a) [] e h h' = absurd (omega arith)
memcmp_lt_total (x ∷ a) (y ∷ b) e h h' = ground (arith, memcmp_lt_total a b)

memcmp_lt_irrefl : (a : List ℕ) → memcmp_lt a a ≡ false
unfolding memcmp_lt
memcmp_lt_irrefl [] = refl
memcmp_lt_irrefl (x ∷ a) = ground (arith, memcmp_lt_irrefl a)

pub key_lt_trans : (a b c : List ℕ) → key_lt a b ≡ true → key_lt b c ≡ true → key_lt a c ≡ true
unfolding key_lt
key_lt_trans a b c h h' = ground (arith, memcmp_lt_trans a b c)

pub key_lt_total : (a b : List ℕ) → key_lt a b ≡ false → key_lt b a ≡ false → a ≡ b
unfolding key_lt
key_lt_total a b h h' = ground (arith, memcmp_lt_total a b)

pub key_lt_irrefl : (a : List ℕ) → key_lt a a ≡ false
unfolding key_lt
key_lt_irrefl a = ground (arith, memcmp_lt_irrefl a)
