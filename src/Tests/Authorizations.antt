-- ===== src/Tests/Authorizations.antt =====
-- Tests of authorizations: an authority that asks for weight 2 and has one delegate of weight 1.
use leaderberry.Prelude.{
  ◌≤◌, ◌≡◌, refl, true, Option, some, [], ◌∷◌, arith, bytes_eq, lookup, insert, bytes_key,
  replicate,
}
use leaderberry.Types.Account.{AccountName, account_name_string, account_name_equal}
use leaderberry.Types.Vote.{verify_signature}
use leaderberry.Types.Authorization.{
  KeyWeight, Authority, SignatureProof, Authorization, authorization, no_more, delegated,
  max_auth_weight, safe_add_weight, find_key, find_account, add_delegate, sign_weight, weigh,
  weigh_delegates, verify_authorization, is_authority_satisfied,
}
use leaderberry.Types.Authorization.Weight.{
  all_weight, sign_weight_once, verify_authorization-le, weigh_repeated,
}
use leaderberry.Tests.Inputs.{letter_crypto, signed_by}

abbrev bob : AccountName
bob = record { name = some (98 ∷ []) }

abbrev bob_key : KeyWeight
bob_key = record { public_key = record { data' = 98 ∷ replicate 31 0 }; weight = 1 }

abbrev by_bob : SignatureProof
by_bob = record { public_key = bob_key.public_key; signature = signed_by 98 }

abbrev bob_authority : Authority
bob_authority = record { threshold = 1; keys = bob_key ∷ []; accounts = [] }

abbrev needs_two : Authority
needs_two = record {
  threshold = 2;
  keys = [];
  accounts = record { account = bob; weight = 1 } ∷ [];
}

abbrev get : AccountName → Option Authority
get name = some bob_authority

abbrev bob_signs : Authorization
bob_signs = authorization (by_bob ∷ []) no_more

abbrev twice : Authorization
twice = authorization [] (delegated bob bob_signs (delegated bob bob_signs no_more))

twice_lem :
    (verify_authorization letter_crypto [] get (some twice) (some needs_two) [] ≡ some 2)
    × (is_authority_satisfied letter_crypto [] get (some twice) needs_two ≡ some true)
unfolding verify_authorization is_authority_satisfied weigh add_delegate lookup find_account
    account_name_equal bytes_eq sign_weight find_key verify_signature safe_add_weight
twice_lem = (refl, refl)

verify_authorization-le_example : 2 ≤ max_auth_weight
verify_authorization-le_example =
    verify_authorization-le letter_crypto [] get (some twice) (some needs_two) [] 2 twice_lem.0

sign_weight_once_example :
    sign_weight letter_crypto [] (bob_key ∷ []) [] 0 (by_bob ∷ by_bob ∷ [])
    ≤ all_weight (bob_key ∷ [])
sign_weight_once_example = sign_weight_once letter_crypto [] (bob_key ∷ []) (by_bob ∷ by_bob ∷ [])

bob_found : find_account get bob needs_two.accounts ≡ some (1, bob_authority)
unfolding find_account account_name_equal bytes_eq
bob_found = refl

bob_enough :
    1
    ≤ weigh letter_crypto [] get (insert (account_name_string bob) true []) bob_signs bob_authority
unfolding weigh sign_weight lookup find_key bytes_eq verify_signature safe_add_weight
bob_enough = omega arith

weigh_repeated_example :
    weigh letter_crypto [] get [] twice needs_two
    ≡ weigh_delegates letter_crypto [] get [] needs_two
        (safe_add_weight (safe_add_weight (sign_weight letter_crypto [] [] [] 0 []) 1) 1)
        no_more
weigh_repeated_example =
    weigh_repeated letter_crypto [] get needs_two [] bob bob_signs no_more 1 bob_authority bob_found
      bob_enough
