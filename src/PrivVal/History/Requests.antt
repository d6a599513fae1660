-- ===== src/PrivVal/History/Requests.antt =====
-- What one signing request does to the cover of the last sign state, on every branch.
use leaderberry.Prelude.{
  ◌≡◌, refl, sym, inl, inr, Bool, true, false, Option, none, some, List, [], ℤ, Bytes, All, All-map,
  arith, Option-cases,
}
use leaderberry.Types.Hash.{Signature, new_signature}
use leaderberry.PrivVal.LastSign.{
  LastSignState, Precedes, Precedes-trans, Precedes-irrefl, IsLater, IsAt, SignError, double_sign,
  height_regression, round_regression, step_regression,
}
use leaderberry.PrivVal.FilePv.{
  Signing, Saving, saved, lost, late, signed, refused, panicked, to_file, hash_bytes, read_state,
  save_state, persist, sign_bytes, decide_sign,
}
use leaderberry.PrivVal.History.{Release, World, after_answer}
use leaderberry.PrivVal.History.Covering.{
  Laws, SameKey, Covered, Covers, SameHrs, Consistent, IsHashed, Covers-SameKey, read_back,
}

pub record Safe {Block : Type 0} (k : Signing Block) (w : World) : Type 0 where
  pub current : LastSignState
  pub covers : Covers k current w.released
  pub hashed : IsHashed k current
  pub consistent : Consistent k w.released
  pub memory : w.running ≡ true → SameKey w.pv.last_sign_state current
  pub on_disk :
      (bs : Bytes) (l : LastSignState)
      → w.pv.disk ≡ some bs
      → read_state k bs ≡ some l
      → SameKey l current
  pub untouched : w.pv.disk ≡ none → (w.released ≡ []) × (w.running ≡ false)

pub SameKey-refl : (a : LastSignState) → SameKey a a
SameKey-refl a = record {
  same_height = refl;
  same_round = refl;
  same_step = refl;
  same_bytes = refl;
  same_none = λ e. e;
}

module _ {Block : Type 0} (k : Signing Block) (laws : Laws k) where
  -- A later state covers what an earlier one covers.
  Covers-later :
      (m n : LastSignState) (log : List Release)
      → IsLater m n.height n.round n.step
      → Covers k m log
      → Covers k n log
  Covers-later m n log later = All-map (Covered k m) (Covered k n) log (λ r c. inl (ahead r c))
    where
      ahead :
          (r : Release) → Covered k m r → Precedes r.height r.round r.step n.height n.round n.step
      ahead r (inl p) =
          Precedes-trans r.height r.round r.step m.height m.round m.step n.height n.round n.step p
            later
      ahead r (inr (a, b, c, _)) = ground (arith, a, b, c, later)

  -- The next signature conflicts with none before it.
  agrees_later :
      (m : LastSignState) (e : Release) (log : List Release)
      → IsLater m e.height e.round e.step
      → Covers k m log
      → All (λ x. SameHrs k e x → hash_bytes k e.bytes ≡ hash_bytes k x.bytes) log
  agrees_later m e log later = All-map (Covered k m) _ log disagree
    where
      disagree :
          (x : Release)
          → Covered k m x
          → SameHrs k e x
          → hash_bytes k e.bytes ≡ hash_bytes k x.bytes
      disagree x (inl p) (a, b, c) = absurd (
          Precedes-irrefl x.height x.round x.step (
            Precedes-trans x.height x.round x.step m.height m.round m.step x.height x.round x.step p
              (ground (arith, a, b, c, later))))
      disagree x (inr (p, q, r, _)) (a, b, c) =
          absurd (Precedes-irrefl x.height x.round x.step (ground (arith, a, b, c, p, q, r, later)))

  -- Nor does the last signature, given out again.
  agrees_again :
      (m : LastSignState) (e : Release) (log : List Release)
      → IsAt m e.height e.round e.step
      → m.sign_bytes_hash ≡ some (hash_bytes k e.bytes)
      → Covers k m log
      → All (λ x. SameHrs k e x → hash_bytes k e.bytes ≡ hash_bytes k x.bytes) log
  agrees_again m e log at bytes = All-map (Covered k m) _ log agree
    where
      agree :
          (x : Release)
          → Covered k m x
          → SameHrs k e x
          → hash_bytes k e.bytes ≡ hash_bytes k x.bytes
      agree x (inl p) (a, b, c) =
          absurd (Precedes-irrefl x.height x.round x.step (ground (arith, a, b, c, at, p)))
      agree x (inr (p, q, r, h)) (a, b, c) = ground (arith, h, bytes)

  -- A panic that leaves the file as it was.
  pub crashed : (w : World) → Safe k w → Safe k (record w { running = false })
  crashed w s = record {
    current = s.current;
    covers = s.covers;
    hashed = s.hashed;
    consistent = s.consistent;
    memory = λ e. cc;
    on_disk = s.on_disk;
    untouched = λ e. ((s.untouched e).0, refl);
  }

  -- A signing request at a height, round and step, the bytes to sign and the state to sign them under.
  module _ (w : World) (s : Safe k w) (up : w.running ≡ true) (height round stp : ℤ) (bytes : Bytes)
      (next : Signature → LastSignState)
      (key : (sig : Signature) → IsAt (next sig) height round stp)
      (hash : (sig : Signature) → (next sig).sign_bytes_hash ≡ some (hash_bytes k bytes)) where
    in_memory : Covers k w.pv.last_sign_state w.released
    in_memory = Covers-SameKey k w.pv.last_sign_state s.current w.released (s.memory up) s.covers

    abbrev released : Signature → Release
    released sig = record {
      height = height;
      round = round;
      step = stp;
      bytes = bytes;
      signature = sig;
    }

    Covers-next :
        (sig : Signature)
        → IsLater w.pv.last_sign_state height round stp
        → Covers k (next sig) w.released
    Covers-next sig later =
        Covers-later w.pv.last_sign_state (next sig) w.released (ground (arith, key sig, later))
          in_memory

    next_on_disk :
        (sig : Signature) (bs : Bytes) (l : LastSignState)
        → some (k.encode (to_file (next sig))) ≡ some bs
        → read_state k bs ≡ some l
        → SameKey l (next sig)
    next_on_disk sig bs l e r =
        read_back k laws (next sig) l (inl (bytes, hash sig)) (ground (arith, e, r))

    persist-Safe :
        (sig : Signature) (saving : Saving)
        → IsLater w.pv.last_sign_state height round stp
        → Safe k (after_answer w height round stp bytes (persist k w.pv (next sig) saving))
    unfolding after_answer persist save_state
    persist-Safe sig lost later = record {
      current = s.current;
      covers = s.covers;
      hashed = s.hashed;
      consistent = s.consistent;
      memory = λ e. cc;
      on_disk = s.on_disk;
      untouched = λ e. ((s.untouched e).0, refl);
    }
    persist-Safe sig late later = record {
      current = next sig;
      covers = Covers-next sig later;
      hashed = inl (bytes, hash sig);
      consistent = s.consistent;
      memory = λ e. cc;
      on_disk = next_on_disk sig;
      untouched = λ e. cc;
    }
    persist-Safe sig saved later = record {
      current = next sig;
      covers = (
        inr (sym (key sig).0, sym (key sig).1, sym (key sig).2, hash sig),
        Covers-next sig later,
      );
      hashed = inl (bytes, hash sig);
      consistent = (
        agrees_later w.pv.last_sign_state (released sig) w.released later in_memory,
        s.consistent,
      );
      memory = λ e. SameKey-refl (next sig);
      on_disk = next_on_disk sig;
      untouched = λ e. cc;
    }

    again-Safe :
        (sig : Signature)
        → IsAt w.pv.last_sign_state height round stp
        → w.pv.last_sign_state.sign_bytes_hash ≡ some (hash_bytes k bytes)
        → Safe k (after_answer w height round stp bytes (w.pv, signed sig))
    unfolding after_answer
    again-Safe sig at h = record {
      current = s.current;
      covers = (inr (ground (arith, at, s.memory up)), s.covers);
      hashed = s.hashed;
      consistent = (
        agrees_again w.pv.last_sign_state (released sig) w.released at h in_memory,
        s.consistent,
      );
      memory = s.memory;
      on_disk = s.on_disk;
      untouched = λ e. ground (arith, s.untouched e, up);
    }

    refused-Safe :
        (e : SignError) → Safe k (after_answer w height round stp bytes (w.pv, refused e))
    unfolding after_answer
    refused-Safe e = record {
      current = s.current;
      covers = s.covers;
      hashed = s.hashed;
      consistent = s.consistent;
      memory = s.memory;
      on_disk = s.on_disk;
      untouched = s.untouched;
    }

    panicked-Safe : Safe k (after_answer w height round stp bytes (w.pv, panicked))
    unfolding after_answer
    panicked-Safe = crashed w s

    sign_bytes-Safe :
        (saving : Saving)
        → IsLater w.pv.last_sign_state height round stp
        → Safe k (after_answer w height round stp bytes (sign_bytes k w.pv bytes next saving))
    unfolding sign_bytes
    sign_bytes-Safe saving later =
        elim (Option-cases (new_signature (k.ed25519_sign w.pv.priv_key bytes))) [
          | inl e ↦ rw (e, sign_bytes) panicked-Safe
          | inr (sig, e) ↦ rw (e, sign_bytes) (persist-Safe sig saving later)
        ]

    pub decide_sign-Safe :
        (check : Option SignError) (same : Bool) (saving : Saving)
        → (check ≡ none → IsLater w.pv.last_sign_state height round stp)
        → (check ≡ some double_sign
            → same ≡ true
            → IsAt w.pv.last_sign_state height round stp
              × (w.pv.last_sign_state.sign_bytes_hash ≡ some (hash_bytes k bytes)))
        → Safe k (
            after_answer w height round stp bytes (decide_sign k w.pv check same bytes next saving))
    unfolding decide_sign
    decide_sign-Safe none same saving later at = sign_bytes-Safe saving (later refl)
    decide_sign-Safe (some double_sign) true saving later at =
        again-Safe _ (at refl refl).0 (at refl refl).1
    decide_sign-Safe (some double_sign) false saving later at = refused-Safe double_sign
    decide_sign-Safe (some height_regression) same saving later at = refused-Safe height_regression
    decide_sign-Safe (some round_regression) same saving later at = refused-Safe round_regression
    decide_sign-Safe (some step_regression) same saving later at = refused-Safe step_regression
