-- ===== src/Engine/PeerState/Peers.antt =====
-- The PeerSet of engine/peer_state.go. A peer's state is a value of the map, where the code has a pointer:
-- what a caller does to a pointer that it was given is `put_peer`.
use leaderberry.Prelude.{
  ℕ, Bool, true, Option, none, some, List, [], map, ℤ, ltb_ℤ, eqb_ℤ, Bytes, bytes_eq, bytes_key,
  lookup, insert, keep_if, not, length,
}
use leaderberry.Types.Vote.{Vote}
use leaderberry.Types.Validator.{ValidatorSet}
use leaderberry.Engine.PeerState
use leaderberry.Engine.PeerState.{
  PeerState, new_peer_state, needs_vote, needs_proposal, set_catching_up,
}

pub record PeerSet : Type 0 where
  pub peers : List (Bytes × PeerState)
  pub val_set : Option ValidatorSet

unfoldable pub new_peer_set : Option ValidatorSet → PeerSet
new_peer_set vals = record { peers = []; val_set = vals }

unfoldable pub get_peer : PeerSet → Bytes → Option PeerState
get_peer ps peer_id = lookup peer_id ps.peers

unfoldable pub put_peer : PeerSet → Bytes → PeerState → PeerSet
put_peer ps peer_id peer = record ps { peers = insert peer_id peer ps.peers }

-- The set, and the peer that is returned.
unfoldable pub add_peer : ℤ → PeerSet → Bytes → PeerSet × PeerState
add_peer now ps peer_id = elim (lookup peer_id ps.peers) [
  | some existing ↦ (ps, existing)
  | none ↦ let peer = new_peer_state now peer_id ps.val_set in (put_peer ps peer_id peer, peer)
]

unfoldable pub remove_peer : PeerSet → Bytes → PeerSet
remove_peer ps peer_id = record ps { peers = keep_if (λ e. not (bytes_eq e.0 peer_id)) ps.peers }

unfoldable pub size : PeerSet → ℕ
size ps = length ps.peers

abbrev pub chosen : (PeerState → Bool) → PeerSet → List PeerState
chosen p ps = keep_if p (map (λ (e : Bytes × PeerState). e.1) ps.peers)

unfoldable pub all_peers : PeerSet → List PeerState
all_peers ps = chosen (λ p. true) ps

unfoldable pub peers_at_height : PeerSet → ℤ → List PeerState
peers_at_height ps height = chosen (λ p. eqb_ℤ p.prs.height height) ps

unfoldable pub peers_needing_vote : PeerSet → Vote → List PeerState
peers_needing_vote ps vote = chosen (λ p. needs_vote p vote) ps

unfoldable pub peers_needing_proposal : PeerSet → ℤ → ℤ → List PeerState
peers_needing_proposal ps height round = chosen (λ p. needs_proposal p height round) ps

unfoldable pub catching_up_peers : PeerSet → List PeerState
catching_up_peers ps = chosen (λ p. p.prs.catching_up) ps

unfoldable pub update_validator_set : PeerSet → Option ValidatorSet → PeerSet
update_validator_set ps vals = record {
  peers = map (λ (e : Bytes × PeerState). (e.0, PeerState.update_validator_set e.1 vals)) ps.peers;
  val_set = vals;
}

unfoldable pub mark_peer_catching_up : PeerSet → Bytes → ℤ → PeerSet
mark_peer_catching_up ps peer_id our_height = elim (lookup peer_id ps.peers) [
  | none ↦ ps
  | some peer ↦ put_peer ps peer_id (set_catching_up peer (ltb_ℤ peer.prs.height our_height))
]
