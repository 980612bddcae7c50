-- ===== src/Solid/Core/Events/Examples.antt =====
-- The core at concrete inputs (solid/core.rs).
use zerosats.Prelude.{refl, Option, ℕ, ◌≡◌, some, [], ◌∷◌, arith}
use zerosats.Solid.Config.{more_than_two_thirds, is_exceeded}
use zerosats.Solid.Types.{Manifest, Check, ok, verify_manifest, verify_signature}
use zerosats.Solid.Proposal.{Proposal}
use zerosats.Solid.Core.{
  with_last_confirmed, SolidEvent, validated_current_proposal, SolidCore, SolidConfig, PeerSigner,
  add_accepts, commit, receive_proposal, validated_current_proposal_hash,
}
use zerosats.Solid.Core.Valid.{IsValid, IsAt}
use zerosats.Solid.Core.Current.{Current, validated_current_proposal_hash-Current}
use zerosats.Solid.Core.Receive.{with_last_confirmed-IsAt, Received, receive_proposal-Received}
use zerosats.Solid.Core.Marks.{Validated, validated_current_proposal-Validated}
use zerosats.Solid.Core.Run.{
  Run, stop, proposed, committed as commits_one, Chain, Run-Chain, with_last_confirmed-Chain,
}
use zerosats.Solid.Core.Events.Answers.{next_event-total, receive_accept-total}
use zerosats.Solid.Core.Events.{receive_accept, AcceptReply, next_event}
use zerosats.Solid.Core.Events.Commit.{Commits, next_event_ready, next_event-Commits}
use zerosats.Solid.Cache.Examples.{
  height_test, chain-IsValid, confirmed_chain, first_test, second_test, confirm_test,
}
use zerosats.Solid.Proposal.{new as new_proposal, validate_structure}
use zerosats.Solid.Cache.{new as new_cache, contains, store, height}
use zerosats.Solid.Leader.{ordered_validators}
use zerosats.Solid.Demo.{
  root_manifest, demo, chain, manifest, vote, first_manifest, second_manifest, second, root, first,
}

abbrev signer : PeerSigner
signer = record { sign = λ bytes. []; peer = 2 }

abbrev config : SolidConfig
config = record {
  max_proposal_history = 8;
  accept_threshold = more_than_two_thirds;
  missing_proposal_timeout = 5;
}

abbrev following : SolidCore ℕ
following = record {
  local_peer_signer = signer;
  proposals = chain;
  orphan_accepts = (31, record { accepts = vote 31 3 0 1 ∷ []; first_seen = 4 }) ∷ [];
  config = config;
  max_height = 2;
}

following-IsValid : IsValid demo chain
following-IsValid = record {
  cache = chain-IsValid;
  hashed = λ k p e. ground arith;
  led = λ k p e. ground arith;
}

abbrev third_manifest : Manifest ℕ
third_manifest = manifest 21 3 (vote 21 2 0 1 ∷ vote 21 2 0 2 ∷ vote 21 2 0 3 ∷ [])

next_event_ready_example :
    (s' : SolidCore ℕ) × (p : Proposal ℕ) × (next_event demo 9 following
      ≡ some (s', some (commit p.manifest second_manifest)))
    × Commits demo following s' p.manifest second_manifest
next_event_ready_example = next_event_ready demo 9 following second following-IsValid second_test

abbrev after_commit : SolidCore ℕ
after_commit = record following { proposals = confirmed_chain }

committed :
    next_event demo 9 following ≡ some (after_commit, some (commit first_manifest second_manifest))
unfolding next_event
committed = rw (first_test, second_test, confirm_test)

next_event-Commits_example : Commits demo following after_commit first_manifest second_manifest
next_event-Commits_example =
    next_event-Commits demo 9 following after_commit first_manifest second_manifest
      following-IsValid committed

validated_current_proposal_hash-Current_example :
    (s' : SolidCore ℕ) × (hash : ℕ) × (validated_current_proposal_hash demo following
      ≡ some (s', hash))
    × Current demo following s' hash
validated_current_proposal_hash-Current_example =
    validated_current_proposal_hash-Current demo following following-IsValid

receive_proposal-Received_example :
    (s' : SolidCore ℕ) × (r : Check) × (receive_proposal demo following third_manifest
      ≡ some (s', r))
    × Received demo following s' third_manifest r
receive_proposal-Received_example =
    receive_proposal-Received demo following third_manifest following-IsValid (omega arith)
      (omega arith)

next_event-total_example :
    (s' : SolidCore ℕ) × (e : Option (SolidEvent ℕ)) × (next_event demo 9 following ≡ some (s', e))
    × IsValid demo s'.proposals
next_event-total_example = next_event-total demo 9 following following-IsValid

following-IsAt : IsAt demo 1 0 chain
following-IsAt = record { valid = following-IsValid; at_hash = refl; at_height = height_test }

receive_accept-total_example :
    (s' : SolidCore ℕ) × (r : AcceptReply ℕ) × (receive_accept demo 9 (vote 21 2 0 3) following
      ≡ some (s', r))
    × IsAt demo 1 0 s'.proposals
receive_accept-total_example =
    receive_accept-total demo 9 1 0 (vote 21 2 0 3) following following-IsAt

validated_current_proposal-Validated_example :
    (s' : SolidCore ℕ) × (p : Proposal ℕ) × (validated_current_proposal demo following
      ≡ some (s', p))
    × Validated demo following s' p
validated_current_proposal-Validated_example =
    validated_current_proposal-Validated demo following following-IsValid

one_commit : Run demo following (first_manifest ∷ []) after_commit
one_commit = commits_one 9 first_manifest second_manifest committed stop

Run-Chain_example :
    (hash' h' : ℕ) × Chain demo 1 0 (first_manifest ∷ []) hash' h'
    × IsAt demo hash' h' after_commit.proposals
Run-Chain_example =
    Run-Chain demo 1 0 following after_commit (first_manifest ∷ []) following-IsAt one_commit

-- A node that starts at the root
abbrev started : SolidCore ℕ
started = with_last_confirmed demo signer root_manifest config

started-IsAt : IsAt demo 1 0 started.proposals
started-IsAt = with_last_confirmed-IsAt demo signer root_manifest config (omega arith) (omega arith)

abbrev one_known : SolidCore ℕ
one_known = record following {
  proposals = record chain { proposals = (1, root) ∷ (11, first) ∷ [] };
  orphan_accepts = [];
  max_height = 1;
}

abbrev two_known : SolidCore ℕ
two_known = record following { orphan_accepts = [] }

first_received : receive_proposal demo started first_manifest ≡ some (one_known, ok)
unfolding receive_proposal with_last_confirmed new_proposal new_cache validate_structure contains
    store height is_exceeded ordered_validators verify_manifest verify_signature add_accepts
first_received = refl

second_received : receive_proposal demo one_known second_manifest ≡ some (two_known, ok)
unfolding receive_proposal new_proposal validate_structure contains store height is_exceeded
    ordered_validators verify_manifest verify_signature add_accepts
second_received = refl

abbrev first_committed : SolidCore ℕ
first_committed = record two_known { proposals = confirmed_chain }

first_commits :
    next_event demo 9 two_known
    ≡ some (first_committed, some (commit first_manifest second_manifest))
unfolding next_event
first_commits = rw (first_test, second_test, confirm_test)

-- It receives two proposals, and commits the first one.
first_calls : Run demo started (first_manifest ∷ []) first_committed
first_calls = proposed first_manifest ok (omega arith) (omega arith) first_received (
    proposed second_manifest ok (omega arith) (omega arith) second_received
      (commits_one 9 first_manifest second_manifest first_commits stop))

with_last_confirmed-Chain_example :
    (hash' h' : ℕ) × Chain demo 1 0 (first_manifest ∷ []) hash' h'
    × IsAt demo hash' h' first_committed.proposals
with_last_confirmed-Chain_example =
    with_last_confirmed-Chain demo signer root_manifest config first_committed (first_manifest ∷ [])
      (omega arith) (omega arith) first_calls
