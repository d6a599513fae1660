-- ===== src/Types/Authorization/Weight.antt =====
-- The weight of an authorization: its cap, what the signatures and what the delegates count.
use leaderberry.Prelude.{
  ℕ, ◌+◌, ◌≤◌, ◌≡◌, refl, Bool, true, Option, none, some, List, [], ◌∷◌, arith, leb, if◌then◌else◌,
  Bytes, bytes_eq_iff, lookup, insert, lookup-insert, bytes_key, is_some, Bool-cases, Option-cases,
  inl, inr,
}
use leaderberry.Types.Account.{AccountName, account_name_string}
use leaderberry.Types.Vote.{Crypto, verify_signature}
use leaderberry.Types.Authorization.{
  KeyWeight, Authority, SignatureProof, Authorization, authorization, Delegations, no_more,
  delegated, max_auth_weight, safe_add_weight, find_key, find_account, add_delegate, sign_weight,
  weigh, weigh_delegates, verify_authorization,
}

safe_add_weight-le :
    (total add : ℕ) → total ≤ max_auth_weight → safe_add_weight total add ≤ max_auth_weight
unfolding safe_add_weight
safe_add_weight-le total add h = ground arith

safe_add_weight-le_sum :
    (total add : ℕ) → total ≤ max_auth_weight → safe_add_weight total add ≤ total + add
unfolding safe_add_weight
safe_add_weight-le_sum total add h = ground arith

-- The weights of the keys that are not seen.
abbrev open_weight : List (Bytes × Bool) → List KeyWeight → ℕ
open_weight seen [] = 0
open_weight seen (kw ∷ kws) =
    (if is_some (lookup kw.public_key.data' seen) then 0 else kw.weight) + open_weight seen kws

abbrev pub all_weight : List KeyWeight → ℕ
all_weight [] = 0
all_weight (kw ∷ kws) = kw.weight + all_weight kws

open_weight-nil : (kws : List KeyWeight) → open_weight [] kws ≡ all_weight kws
unfolding lookup
open_weight-nil [] = refl
open_weight-nil (kw ∷ kws) = omega (arith, open_weight-nil kws)

open_weight_mono :
    (key : Bytes) (seen : List (Bytes × Bool)) (kws : List KeyWeight)
    → open_weight (insert key true seen) kws ≤ open_weight seen kws
open_weight_mono key seen [] = omega arith
open_weight_mono key seen (kw ∷ kws) =
    ground (arith, open_weight_mono key seen kws, lookup-insert key kw.public_key.data' true seen)

open_weight-insert :
    (key : Bytes) (seen : List (Bytes × Bool)) (kws : List KeyWeight) (kw : KeyWeight)
    → find_key key kws ≡ some kw
    → lookup key seen ≡ none
    → open_weight (insert key true seen) kws + kw.weight ≤ open_weight seen kws
unfolding find_key
open_weight-insert key seen [] kw e n = cc
open_weight-insert key seen (x ∷ kws) kw e n = ground (
  arith,
  e,
  n,
  open_weight-insert key seen kws kw,
  open_weight_mono key seen kws,
  lookup-insert key x.public_key.data' true seen,
  bytes_eq_iff key x.public_key.data',
)

module _ (c : Crypto) (sign_bytes : Bytes) where
  sign_weight-le :
      (keys : List KeyWeight) (seen : List (Bytes × Bool)) (total : ℕ) (sigs : List SignatureProof)
      → total ≤ max_auth_weight
      → (sign_weight c sign_bytes keys seen total sigs ≤ max_auth_weight)
        × (sign_weight c sign_bytes keys seen total sigs ≤ total + open_weight seen keys)
  unfolding sign_weight
  sign_weight-le keys seen total [] h = (h, omega arith)
  sign_weight-le keys seen total (sig ∷ sigs) h =
      elim (Option-cases (lookup sig.public_key.data' seen)) [
        | inr (b, e) ↦ rw (e, sign_weight) (sign_weight-le keys seen total sigs h)
        | inl e ↦ elim (Option-cases (find_key sig.public_key.data' keys)) [
          | inl f ↦ rw (e, f, sign_weight) (sign_weight-le keys seen total sigs h)
          | inr (kw, f) ↦
              elim (Bool-cases (verify_signature c kw.public_key sign_bytes sig.signature)) [
                | inr v ↦ rw (e, f, v, sign_weight) (sign_weight-le keys seen total sigs h)
                | inl v ↦
                    let (cap, sum) =
                      sign_weight-le keys (insert sig.public_key.data' true seen)
                        (safe_add_weight total kw.weight) sigs
                        (safe_add_weight-le total kw.weight h) in
                    rw (e, f, v, sign_weight)
                      (
                        cap,
                        omega (
                          arith,
                          sum,
                          open_weight-insert sig.public_key.data' seen keys kw f e,
                          safe_add_weight-le_sum total kw.weight h,
                        ),
                      )
              ]
        ]
      ]

  -- Signatures, however often they are repeated, count at most the weights of the authority's keys, each
  -- once.
  pub sign_weight_once :
      (keys : List KeyWeight) (sigs : List SignatureProof)
      → sign_weight c sign_bytes keys [] 0 sigs ≤ all_weight keys
  sign_weight_once keys sigs =
      omega (arith, (sign_weight-le keys [] 0 sigs (omega arith)).1, open_weight-nil keys)

reached : (a b : ℕ) → a ≤ b → leb a b ≡ true
reached a b h = ground arith

add_delegate-le :
    (total : ℕ) (found : Option (ℕ × Authority)) (weigh_with : Authority → ℕ)
    → total ≤ max_auth_weight
    → add_delegate total found weigh_with ≤ max_auth_weight
unfolding add_delegate
add_delegate-le total none weigh_with h = h
add_delegate-le total (some (weight, authority)) weigh_with h =
    elim (Bool-cases (leb authority.threshold (weigh_with authority))) [
      | inl e ↦ rw e (safe_add_weight-le total weight h)
      | inr e ↦ rw e h
    ]

module _ (c : Crypto) (sign_bytes : Bytes) (get : AccountName → Option Authority) where
  weigh_delegates-le :
      (visited : List (Bytes × Bool)) (authority : Authority) (ds : Delegations) (total : ℕ)
      → total ≤ max_auth_weight
      → weigh_delegates c sign_bytes get visited authority total ds ≤ max_auth_weight
  unfolding weigh_delegates
  weigh_delegates-le visited authority no_more total h = h
  weigh_delegates-le visited authority (delegated name auth rest) total h =
      weigh_delegates-le visited authority rest _ (add_delegate-le total _ _ h)

  -- Every weight that VerifyAuthorization returns is at most MaxAuthWeight, 2^31 - 1.
  pub verify_authorization-le :
      (auth : Option Authorization) (authority : Option Authority) (visited : List (Bytes × Bool))
      (w : ℕ)
      → verify_authorization c sign_bytes get auth authority visited ≡ some w
      → w ≤ max_auth_weight
  unfolding verify_authorization
  verify_authorization-le none authority visited w e = cc
  verify_authorization-le (some auth) none visited w e = cc
  verify_authorization-le (some (authorization sigs ds)) (some authority) visited w e =
      let capped =
        weigh_delegates-le visited authority ds (sign_weight c sign_bytes authority.keys [] 0 sigs)
          (sign_weight-le c sign_bytes authority.keys [] 0 sigs (omega arith)).0 in
      let same : weigh c sign_bytes get visited (authorization sigs ds) authority ≡ w =
        ground (arith, e) in
      unfold weigh in omega (arith, capped, same)

  -- A satisfied delegate that the authorization lists twice in a row counts twice.
  pub weigh_repeated :
      (authority : Authority) (sigs : List SignatureProof) (name : AccountName)
      (auth : Authorization) (rest : Delegations) (weight : ℕ) (delegate : Authority)
      → find_account get name authority.accounts ≡ some (weight, delegate)
      → delegate.threshold
        ≤ weigh c sign_bytes get (insert (account_name_string name) true []) auth delegate
      → weigh c sign_bytes get []
          (authorization sigs (delegated name auth (delegated name auth rest)))
          authority
        ≡ weigh_delegates c sign_bytes get [] authority
            (safe_add_weight
              (safe_add_weight (sign_weight c sign_bytes authority.keys [] 0 sigs) weight)
              weight)
            rest
  unfolding weigh weigh_delegates add_delegate lookup
  weigh_repeated authority sigs name auth rest weight delegate found enough =
      rw
        (
          found,
          reached delegate.threshold
              (weigh c sign_bytes get (insert (account_name_string name) true []) auth delegate)
              enough,
        )
        refl
