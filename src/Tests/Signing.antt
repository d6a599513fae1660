-- ===== src/Tests/Signing.antt =====
-- Tests of the validator's key: a state file of numbers, a sum of 32 bytes, and a life in which a vote
-- is signed, a conflicting one refused, one lost in a panic, and the first one signed again.
use leaderberry.Prelude.{
  zero, suc, ◌≡◌, ◌↔◌, refl, ap, Option, some, none, List, [], ◌∷◌, ◌++◌, ℤ, pos, negsuc, arith,
  Bytes, length, bytes_eq, take, drop, replicate, get_elem?, length-take, length-append,
}
use leaderberry.Types.Hash.{new_signature, copy_signature, copy_bytes, copy_hash, new_hash}
use leaderberry.Types.Vote.{vote_sign_bytes}
use leaderberry.PrivVal.LastSign.{
  empty_state, vote_step, double_sign, check_hrs, IsLater, IsAt, check_hrs-none,
}
use leaderberry.PrivVal.FilePv.{
  Signing, StateFile, saved, lost, load_state, save_state, sign_vote, decide_sign, sign_bytes,
  persist, vote_state, is_same_vote, hash_bytes, to_file, read_state, from_file, load_hash,
  load_signature,
}
use leaderberry.PrivVal.History.{Release, Event, votes, starts, run, step, after_answer, new_world}
use leaderberry.PrivVal.History.Covering.{Laws}
use leaderberry.PrivVal.History.NoDoubleSign.{no_double_sign}
use leaderberry.Tests.Inputs.{letter_crypto, chain, block_x, block_y, precommit, signed_by}

abbrev pub put_int : ℤ → Bytes → Bytes
put_int (pos n) rest = 0 ∷ n ∷ rest
put_int (negsuc n) rest = 1 ∷ n ∷ rest

abbrev put_bytes : Bytes → Bytes → Bytes
put_bytes bs rest = length bs ∷ (bs ++ rest)

abbrev encode : StateFile → Bytes
encode f = put_int f.height (
    put_int f.round (
      put_int f.step (
        put_int f.timestamp
          (put_bytes f.signature (put_bytes f.block_hash (put_bytes f.sign_bytes_hash []))))))

abbrev get_int : {A : Type 0} → Bytes → (ℤ → Bytes → Option A) → Option A
get_int [] go = none
get_int (s ∷ []) go = none
get_int (zero ∷ n ∷ rest) go = go (pos n) rest
get_int (suc s ∷ n ∷ rest) go = go (negsuc n) rest

abbrev get_bytes : {A : Type 0} → Bytes → (Bytes → Bytes → Option A) → Option A
get_bytes [] go = none
get_bytes (n ∷ rest) go = go (take n rest) (drop n rest)

abbrev decode : Bytes → Option StateFile
decode bs = get_int bs λ height bs. get_int bs λ round bs. get_int bs λ step bs.
    get_int bs λ timestamp bs. get_bytes bs λ signature bs. get_bytes bs λ block_hash bs.
      get_bytes bs λ sign_bytes_hash bs. some (record {
        height = height;
        round = round;
        step = step;
        signature = signature;
        block_hash = block_hash;
        sign_bytes_hash = sign_bytes_hash;
        timestamp = timestamp;
      })

module _ {A : Type 0} where
  get-put_int :
      (n : ℤ) (rest : Bytes) (go : ℤ → Bytes → Option A) → get_int (put_int n rest) go ≡ go n rest
  get-put_int (pos n) rest go = refl
  get-put_int (negsuc n) rest go = refl

  get-put_bytes :
      (bs rest : Bytes) (go : Bytes → Bytes → Option A)
      → get_bytes (put_bytes bs rest) go ≡ go bs rest
  get-put_bytes [] rest go = refl
  get-put_bytes (b ∷ bs) rest go = get-put_bytes bs rest (λ t d. go (b ∷ t) d)

decode-encode : (f : StateFile) → decode (encode f) ≡ some f
decode-encode f = rw (
  get-put_int f.height,
  get-put_int f.round,
  get-put_int f.step,
  get-put_int f.timestamp,
  get-put_bytes f.signature,
  get-put_bytes f.block_hash,
  get-put_bytes f.sign_bytes_hash,
)

-- The first 32 bytes.
abbrev sum : Bytes → Bytes
sum bs = take 32 (bs ++ replicate 32 0)

sum_size : (bs : Bytes) → length (sum bs) ≡ 32
sum_size bs =
    omega (arith, length-take 32 (bs ++ replicate 32 0), length-append bs (replicate 32 0))

abbrev pub letters : Signing Bytes
letters = record {
  crypto = letter_crypto;
  sha256 = sum;
  ed25519_sign = λ key message. (signed_by 97).data';
  marshal_proposal = λ p. p.block;
  marshal_header = λ b. b;
  encode = encode;
  decode = decode;
}

letters-Laws : Laws letters
letters-Laws = record { sum_size = sum_size; decode-encode = decode-encode }

abbrev life : List (Event Bytes)
life =
    starts saved
    ∷ votes chain (precommit 97 0 (some block_x)) saved
    ∷ votes chain (precommit 97 0 (some block_y)) saved
    ∷ votes chain (record (precommit 97 0 (some block_y)) { round = pos 1 }) lost
    ∷ starts saved
    ∷ votes chain (precommit 97 0 (some block_x)) saved
    ∷ []

abbrev released : Release
released = record {
  height = pos 5;
  round = pos 0;
  step = pos 2;
  bytes = vote_sign_bytes letter_crypto chain (precommit 97 0 (some block_x));
  signature = signed_by 97;
}

life_lem : (run letters (new_world (97 ∷ [])) life).released ≡ released ∷ released ∷ []
unfolding run step load_state save_state after_answer sign_vote vote_step decide_sign check_hrs
    sign_bytes new_signature persist vote_state is_same_vote bytes_eq hash_bytes vote_sign_bytes
    copy_signature copy_bytes copy_hash to_file read_state from_file load_hash load_signature
    new_hash
life_lem = refl

no_double_sign_example : sum released.bytes ≡ sum released.bytes
no_double_sign_example =
    no_double_sign letters (97 ∷ []) life 0 1 released released letters-Laws
      (ap (λ (l : List Release). get_elem? l 0) life_lem)
      (ap (λ (l : List Release). get_elem? l 1) life_lem) refl refl refl

check_hrs-none_example :
    ((check_hrs empty_state (pos 1) (pos 0) (pos 1) ≡ none)
      ↔ IsLater empty_state (pos 1) (pos 0) (pos 1))
    × ((check_hrs empty_state (pos 1) (pos 0) (pos 1) ≡ some double_sign)
        ↔ IsAt empty_state (pos 1) (pos 0) (pos 1))
check_hrs-none_example = check_hrs-none empty_state (pos 1) (pos 0) (pos 1)
