-- ===== src/Solid/Types.antt =====
-- The data of ciphera/pkg/solid/src: proposal/{accept,header,manifest}.rs, errors.rs, traits.rs.
-- A peer, and a 32-byte hash, is the number that its bytes spell; `S` is the application's state.
use zerosats.Prelude.Bytes.{be_bytes}
use zerosats.Prelude.{
  ◌≡◌, refl, ◌⊎◌, inl, inr, ℕ, zero, suc, ◌+◌, ◌*◌, ◌/◌, ◌%◌, Bool, true, false, List, [], ◌∷◌,
  ◌++◌, if◌then◌else◌,
}

pub record ProposalHeader : Type 0 where
  pub hash : ℕ
  pub height : ℕ
  pub skips : ℕ

pub record ProposalAccept : Type 0 where
  pub leader_id : ℕ
  pub proposal : ProposalHeader
  pub skips : ℕ
  pub from : ℕ
  pub signature : List ℕ

pub record ManifestContent (S : Type 0) : Type 0 where
  pub last_proposal_hash : ℕ
  pub skips : ℕ
  pub height : ℕ
  pub leader_id : ℕ
  pub state : S
  pub validators : List ℕ
  pub accepts : List ProposalAccept

-- `Deref` makes the fields of the content those of the manifest.
pub record Manifest (S : Type 0) : Type 0 where
  pub content : ManifestContent S
  pub open content use *
  pub signature : List ℕ

pub data Error : Type 0 where
  invalid_accept_signature : Error
  invalid_accept_proposal_hash : Error
  invalid_accept_validator : Error
  invalid_proposal_leader : Error
  invalid_accept_leader : (expected got : ℕ) → Error
  insufficient_accepts_for_proposal : Error
  invalid_proposal_signature : Error
  proposal_already_exists : (hash : ℕ) → Error
  proposal_height_too_low : Error
  proposal_peer_threshold_not_met : Error
  proposal_invalid_decendent : Error
  proposal_invalid_app_structure : Error
  proposal_invalid_app_content : Error

-- `Result<()>`
pub data Check : Type 0 where
  ok : Check
  err : Error → Check

abbrev pub is_ok : Check → Bool
is_ok ok = true
is_ok (err _) = false

-- To split on a result and keep the equation.
pub Check-cases : (c : Check) → (c ≡ ok) ⊎ ((e : Error) × (c ≡ err e))
Check-cases ok = inl refl
Check-cases (err e) = inr (e, refl)

-- The traits `App` and `Peer`, and the hash functions of the crates `sha2` and `sha3`.
-- `verify peer signature msg` is the method of the peer.
pub record App (S : Type 0) : Type 0 where
  pub hash : ManifestContent S → ℕ
  pub validate_structure : ManifestContent S → Bool
  pub validate_contents : ManifestContent S → ManifestContent S → Bool
  pub verify : ℕ → List ℕ → List ℕ → Bool
  pub to_u256 : ℕ → ℕ
  pub sha256 : List ℕ → List ℕ
  pub keccak256 : List ℕ → List ℕ
  pub genesis_state : S

-- `U256::from_little_endian`, and the bytes that it reads
abbrev pub from_little_endian : List ℕ → ℕ
from_little_endian [] = 0
from_little_endian (b ∷ bs) = b + 256 * from_little_endian bs

abbrev pub le_bytes : ℕ → ℕ → List ℕ
le_bytes zero v = []
le_bytes (suc n) v = v % 256 ∷ le_bytes n (v / 256)

module _ {S : Type 0} (app : App S) where
  -- `ProposalAcceptSigData::hash`
  unfoldable pub sig_data_hash : ProposalHeader → ℕ → List ℕ
  sig_data_hash proposal skips = app.keccak256 (le_bytes 32 proposal.hash ++ be_bytes 8 skips)

  -- `ProposalAccept::verify_signature`
  unfoldable pub verify_signature : ProposalAccept → Check
  unfolding sig_data_hash
  verify_signature a =
      if app.verify a.from a.signature (sig_data_hash a.proposal a.skips)
      then ok
      else err invalid_accept_signature

  -- `Manifest::verify`
  unfoldable pub verify_manifest : Manifest S → ℕ → Bool
  verify_manifest m signer = app.verify signer m.signature (le_bytes 32 (app.hash m.content))
