-- ===== src/Solid/Config/Quorum.antt =====
-- What the thresholds of config.rs promise: quorums meet, and a blocking set stops every quorum.
use zerosats.Prelude.{
  ℕ, suc, ◌-◌, ◌*◌, ◌≤◌, ◌<◌, ◌^◌, ◌≡◌, ◌↔◌, true, false, List, arith, length, NoRepeats, Within,
  common, common_ge,
}
use zerosats.Solid.Config.{
  AcceptThreshold, more_than_two_thirds, threshold, is_exact_breach, inverse_exceeded, is_exceeded,
}

-- A threshold can be met: it is at most the number of peers, where there is a peer.
pub threshold_le : (t : AcceptThreshold) (peers : ℕ) → 0 < peers → threshold t peers ≤ peers
unfolding threshold
threshold_le AcceptThreshold.more_than_two_thirds peers h = omega arith
threshold_le AcceptThreshold.majority peers h = omega arith

-- Where there are peers, fewer than 2 ^ 63, and no more accepts than peers, the inverse is
-- exceeded exactly when the peers that have not accepted are too few to meet the threshold.
pub inverse_exceeded_iff :
    (t : AcceptThreshold) (accepts peers : ℕ)
    → 0 < peers
    → peers < 2 ^ 63
    → accepts ≤ peers
    → (inverse_exceeded t accepts peers ≡ true) ↔ (is_exceeded t (peers - accepts) peers ≡ false)
unfolding inverse_exceeded is_exceeded threshold
inverse_exceeded_iff AcceptThreshold.more_than_two_thirds accepts peers p b h = ground arith
inverse_exceeded_iff AcceptThreshold.majority accepts peers p b h = ground arith

-- A threshold is reached by adding accepts one at a time: it is breached exactly at the accept
-- that first meets it.
pub is_exact_breach_iff :
    (t : AcceptThreshold) (accepts peers : ℕ)
    → (is_exact_breach t (suc accepts) peers ≡ true)
      ↔ ((is_exceeded t accepts peers ≡ false) × (is_exceeded t (suc accepts) peers ≡ true))
unfolding is_exact_breach is_exceeded threshold
is_exact_breach_iff AcceptThreshold.more_than_two_thirds accepts peers = ground arith
is_exact_breach_iff AcceptThreshold.majority accepts peers = ground arith

-- Two sets of validators, without repeats, that both exceed the threshold of more than two thirds
-- have more than a third of the validators in common.
pub quorum_intersection :
    (accepts others validators : List ℕ)
    → NoRepeats accepts
    → NoRepeats others
    → Within accepts validators
    → Within others validators
    → is_exceeded more_than_two_thirds (length accepts) (length validators) ≡ true
    → is_exceeded more_than_two_thirds (length others) (length validators) ≡ true
    → length validators < 3 * common accepts others
unfolding is_exceeded threshold
quorum_intersection accepts others validators sa so wa wo ha ho =
    ground (arith, common_ge accepts others validators sa so wa wo)
