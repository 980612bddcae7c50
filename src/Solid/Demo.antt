-- ===== src/Solid/Demo.antt =====
-- An application, four validators, and a chain of three proposals, on which the examples run.
use zerosats.Prelude.{ℕ, suc, ◌+◌, ◌*◌, true, false, not, ◌==◌, List, [], ◌∷◌}
use zerosats.Solid.Types.{ProposalAccept, ManifestContent, Manifest, App}
use zerosats.Solid.Proposal.{Proposal}
use zerosats.Solid.Cache.{ProposalCache}

abbrev pub demo : App ℕ
demo = record {
  hash = λ m. suc (10 * m.height + m.skips);
  validate_structure = λ m. not (m.state == 7);
  validate_contents = λ m last. true;
  verify = λ peer signature msg. not (peer == 9);
  to_u256 = λ peer. peer;
  sha256 = λ bytes. bytes;
  keccak256 = λ bytes. bytes;
  genesis_state = 0;
}

abbrev pub vote : ℕ → ℕ → ℕ → ℕ → ProposalAccept
vote hash height skips from = record {
  leader_id = 1;
  proposal = record { hash = hash; height = height; skips = 0 };
  skips = skips;
  from = from;
  signature = [];
}

abbrev pub four : List ℕ
four = 1 ∷ 2 ∷ 3 ∷ 4 ∷ []

abbrev pub content : ℕ → ℕ → List ProposalAccept → ManifestContent ℕ
content last height votes = record {
  last_proposal_hash = last;
  skips = 0;
  height = height;
  leader_id = 1;
  state = 0;
  validators = four;
  accepts = votes;
}

abbrev pub manifest : ℕ → ℕ → List ProposalAccept → Manifest ℕ
manifest last height votes = record { content = content last height votes; signature = [] }

abbrev pub root_manifest : Manifest ℕ
root_manifest = manifest 0 0 []

abbrev pub first_manifest : Manifest ℕ
first_manifest = manifest 1 1 (vote 1 0 0 1 ∷ vote 1 0 0 2 ∷ vote 1 0 0 3 ∷ [])

abbrev pub second_manifest : Manifest ℕ
second_manifest = manifest 11 2 (vote 11 1 0 1 ∷ vote 11 1 0 2 ∷ vote 11 1 0 4 ∷ [])

-- The proposals, with the order of the validators written out.
abbrev pub proposal : Manifest ℕ → Proposal ℕ
proposal m = record {
  incoming_accepts = [];
  hash = demo.hash m.content;
  manifest = m;
  ordered_validators = four;
  initial_accept_sent = false;
  skips_sent = 0;
  is_validated = false;
}

abbrev pub root : Proposal ℕ
root = proposal root_manifest

abbrev pub first : Proposal ℕ
first = proposal first_manifest

abbrev pub second : Proposal ℕ
second = proposal second_manifest

abbrev pub chain : ProposalCache ℕ
chain = record {
  last_confirmed_proposal_hash = 1;
  proposals = (1, root) ∷ (11, first) ∷ (21, second) ∷ [];
  cache_size = 8;
}
