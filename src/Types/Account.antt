-- ===== src/Types/Account.antt =====
-- The account names of types/account.go. `none` is the nil string pointer.
use leaderberry.Prelude.{
  ◌≡◌, refl, Bool, true, false, Option, none, some, [], arith, Bytes, bytes_eq, bytes_eq_sound,
  bytes_eq_refl, length, ◌==◌, ap,
}

pub record AccountName : Type 0 where
  pub name : Option Bytes

abbrev string_of : Option Bytes → Bytes
string_of none = []
string_of (some s) = s

unfoldable pub account_name_string : AccountName → Bytes
account_name_string a = string_of a.name

unfoldable pub is_account_name_empty : AccountName → Bool
is_account_name_empty a = length (string_of a.name) == 0

abbrev name_equal : Option Bytes → Option Bytes → Bool
name_equal none none = true
name_equal none (some b) = false
name_equal (some a) none = false
name_equal (some a) (some b) = bytes_eq a b

unfoldable pub account_name_equal : AccountName → AccountName → Bool
account_name_equal a b = name_equal a.name b.name

unfoldable pub copy_account_name : AccountName → AccountName
copy_account_name a = record { name = elim a.name [ none ↦ none | some s ↦ some s ] }

pub copy_account_name_lem : (a : AccountName) → copy_account_name a ≡ a
unfolding copy_account_name
copy_account_name_lem a = ground arith

name_equal_sound : (a b : Option Bytes) → name_equal a b ≡ true → a ≡ b
name_equal_sound none none h = refl
name_equal_sound none (some b) h = ground arith
name_equal_sound (some a) none h = ground arith
name_equal_sound (some a) (some b) h = ap some (bytes_eq_sound a b h)

pub account_name_equal_sound : (a b : AccountName) → account_name_equal a b ≡ true → a ≡ b
unfolding account_name_equal
account_name_equal_sound a b h = ground (arith, name_equal_sound a.name b.name)

name_equal_refl : (a : Option Bytes) → name_equal a a ≡ true
name_equal_refl none = refl
name_equal_refl (some a) = bytes_eq_refl a

pub account_name_equal_refl : (a : AccountName) → account_name_equal a a ≡ true
unfolding account_name_equal
account_name_equal_refl a = name_equal_refl a.name
