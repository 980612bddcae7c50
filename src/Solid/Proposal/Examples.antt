-- ===== src/Solid/Proposal/Examples.antt =====
-- Proposals and votes at concrete inputs (proposal/mod.rs).
use zerosats.Prelude.{ℕ, suc, ◌≤◌, ◌≡◌, refl, ◌↔◌, true, some, [], ◌∷◌, arith, All}
use zerosats.Solid.Config.{more_than_two_thirds, threshold, is_exceeded, is_exact_breach}
use zerosats.Solid.Types.{ok, verify_manifest, verify_signature}
use zerosats.Solid.Leader.{manifest_leader_for_skip, ordered_validators}
use zerosats.Solid.Proposal.{
  Proposal, new, validate_structure, validate_contents, validate_accept, add_accept,
}
use zerosats.Solid.Proposal.Validate.{Justifies, validate_structure_iff}
use zerosats.Solid.Proposal.Votes.{IsTallied, votes, add_accept-proposes}
use zerosats.Solid.Demo.{demo, vote, root, first, first_manifest}

structure_test : validate_structure demo (new demo first_manifest) more_than_two_thirds ≡ ok
unfolding validate_structure new is_exceeded ordered_validators verify_manifest verify_signature
structure_test = refl

contents_test : validate_contents demo first root ≡ some ok
unfolding validate_contents manifest_leader_for_skip
contents_test = refl

accept_test : validate_accept demo first (vote 11 1 0 2) ≡ some ok
unfolding validate_accept verify_signature manifest_leader_for_skip
accept_test = refl

-- Two votes for the skip 0 are there.
abbrev two_votes : Proposal ℕ
two_votes = record first {
  incoming_accepts = (0, (1, vote 11 1 0 1) ∷ (2, vote 11 1 0 2) ∷ []) ∷ [];
  initial_accept_sent = true;
  skips_sent = 1;
}

abbrev three_votes : Proposal ℕ
three_votes = record two_votes {
  incoming_accepts = (0, (1, vote 11 1 0 1) ∷ (2, vote 11 1 0 2) ∷ (4, vote 11 1 0 4) ∷ []) ∷ [];
}

two_votes-IsTallied : IsTallied two_votes
two_votes-IsTallied = record { skips_ordered = (tt, tt); votes_ordered = λ skip. ground arith }

third_vote :
    add_accept demo two_votes (vote 11 1 0 4) more_than_two_thirds ≡ some (three_votes, true)
unfolding add_accept verify_signature manifest_leader_for_skip is_exact_breach
third_vote = refl

validate_structure_iff_example :
    (validate_structure demo (new demo first_manifest) more_than_two_thirds ≡ ok) ↔ (
      (threshold more_than_two_thirds 4 ≤ 3)
      × (verify_manifest demo first_manifest 1 ≡ true)
      × All (Justifies demo first_manifest) first_manifest.accepts
      × (demo.validate_structure first_manifest.content ≡ true))
validate_structure_iff_example = validate_structure_iff demo first_manifest more_than_two_thirds

add_accept-proposes_example :
    (suc (votes two_votes 0) ≡ threshold more_than_two_thirds 4)
    × (votes three_votes 0 ≡ threshold more_than_two_thirds 4)
add_accept-proposes_example =
    add_accept-proposes demo two_votes three_votes (vote 11 1 0 4) more_than_two_thirds
      two_votes-IsTallied third_vote
