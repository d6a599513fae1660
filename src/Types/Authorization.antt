-- ===== src/Types/Authorization.antt =====
-- VerifyAuthorization and IsAuthoritySatisfied of types/account.go, on the types of
-- types/generated/account.go and types/generated/transaction.go. The lookup of accounts is the caller's
-- function; `none` is its error.
pub mod Weight
use leaderberry.Prelude.{
  ℕ, ◌+◌, ◌-◌, ◌%◌, Bool, true, false, Option, none, some, List, [], ◌∷◌, ltb, leb, if◌then◌else◌,
  Bytes, bytes_eq, lookup, insert, bytes_key, is_some,
}
use leaderberry.Types.Hash.{Signature, PublicKey}
use leaderberry.Types.Account.{AccountName, account_name_string, account_name_equal}
use leaderberry.Types.Vote.{Crypto, verify_signature}

pub record KeyWeight : Type 0 where
  pub public_key : PublicKey
  pub weight : ℕ  -- uint32

pub record AccountWeight : Type 0 where
  pub account : AccountName
  pub weight : ℕ  -- uint32

pub record Authority : Type 0 where
  pub threshold : ℕ  -- uint32
  pub keys : List KeyWeight
  pub accounts : List AccountWeight

pub record SignatureProof : Type 0 where
  pub public_key : PublicKey
  pub signature : Signature

-- An authorization, and the list of the account authorizations in it.
mutual
  pub data Authorization : Type 0 where
    authorization : List SignatureProof → Delegations → Authorization

  pub data Delegations : Type 0 where
    no_more : Delegations
    delegated : AccountName → Authorization → Delegations → Delegations

abbrev pub max_auth_weight : ℕ
max_auth_weight = 2147483647

-- MaxAuthWeight-total and total+add are on uint32.
unfoldable pub safe_add_weight : ℕ → ℕ → ℕ
safe_add_weight total add =
    if ltb ((max_auth_weight + 4294967296 - total) % 4294967296) add
    then max_auth_weight
    else (total + add) % 4294967296

-- The first key of the authority that is the one given.
unfoldable pub find_key : Bytes → List KeyWeight → Option KeyWeight
find_key key [] = none
find_key key (kw ∷ kws) = if bytes_eq key kw.public_key.data' then some kw else find_key key kws

-- The first account of the authority that is the one given and that `get` finds, with its authority.
unfoldable pub find_account :
    (AccountName → Option Authority) → AccountName → List AccountWeight → Option (ℕ × Authority)
find_account get name [] = none
find_account get name (aw ∷ aws) =
    let rest = find_account get name aws in
    if account_name_equal aw.account name
    then elim (get aw.account) [ none ↦ rest | some authority ↦ some (aw.weight, authority) ]
    else rest

-- The weight of a delegate whose own authority is satisfied is added.
unfoldable pub add_delegate : ℕ → Option (ℕ × Authority) → (Authority → ℕ) → ℕ
add_delegate total none weigh_with = total
add_delegate total (some (weight, authority)) weigh_with =
    if leb authority.threshold (weigh_with authority) then safe_add_weight total weight else total

module _ (c : Crypto) (sign_bytes : Bytes) where
  -- The loop over the signatures, with the keys counted so far.
  unfoldable pub sign_weight : List KeyWeight → List (Bytes × Bool) → ℕ → List SignatureProof → ℕ
  sign_weight keys seen total [] = total
  sign_weight keys seen total (sig ∷ sigs) =
      if is_some (lookup sig.public_key.data' seen)
      then sign_weight keys seen total sigs
      else elim (find_key sig.public_key.data' keys) [
        | none ↦ sign_weight keys seen total sigs
        | some kw ↦
            if verify_signature c kw.public_key sign_bytes sig.signature
            then sign_weight keys (insert sig.public_key.data' true seen)
                (safe_add_weight total kw.weight) sigs
            else sign_weight keys seen total sigs
      ]

module _ (c : Crypto) (sign_bytes : Bytes) (get : AccountName → Option Authority) where
  unfoldable mutual
    pub weigh : List (Bytes × Bool) → Authorization → Authority → ℕ
    weigh visited (authorization sigs ds) authority =
        weigh_delegates visited authority (sign_weight c sign_bytes authority.keys [] 0 sigs) ds

    pub weigh_delegates : List (Bytes × Bool) → Authority → ℕ → Delegations → ℕ
    weigh_delegates visited authority total no_more = total
    weigh_delegates visited authority total (delegated name auth rest) =
        let visits = insert (account_name_string name) true visited in
        let allowed =
          if is_some (lookup (account_name_string name) visited)
          then none
          else find_account get name authority.accounts in
        weigh_delegates visited authority (add_delegate total allowed (weigh visits auth)) rest

  -- `none` is ErrInsufficientWeight, for nil.
  unfoldable pub verify_authorization :
      Option Authorization → Option Authority → List (Bytes × Bool) → Option ℕ
  verify_authorization none authority visited = none
  verify_authorization (some auth) none visited = none
  verify_authorization (some auth) (some authority) visited = some (weigh visited auth authority)

  unfoldable pub is_authority_satisfied : Option Authorization → Authority → Option Bool
  is_authority_satisfied none authority = none
  is_authority_satisfied (some auth) authority =
      some (leb authority.threshold (weigh [] auth authority))
