-- ===== src/Solid/Leader.antt =====
-- The order of the validators and the leader of a skip: ciphera/pkg/solid/src/proposal/manifest.rs.
pub mod Order
pub mod Agreed
mod Examples
use Prim.Native.Nat.{bit_xor}
use zerosats.Prelude.{
  ℕ, ◌%◌, Bool, Option, some, List, [], ◌∷◌, ◌++◌, leb, if◌then◌else◌, length, get_elem?,
}
use zerosats.Solid.Types.{ManifestContent, Manifest, App, from_little_endian}
use zerosats.Prelude.Bytes.{be_bytes}

-- `sort_by_key`: stable, so an element goes behind those of its key.
abbrev pub sort_insert : (ℕ → ℕ) → ℕ → List ℕ → List ℕ
sort_insert key x [] = x ∷ []
sort_insert key x (y ∷ ys) = if leb (key x) (key y) then x ∷ y ∷ ys else y ∷ sort_insert key x ys

unfoldable pub sort_by_key : (ℕ → ℕ) → List ℕ → List ℕ
sort_by_key key [] = []
sort_by_key key (x ∷ xs) = sort_insert key x (sort_by_key key xs)

-- `none` is the panic of `% 0` where there are no validators.
unfoldable pub get_leader_for_skip : ℕ → List ℕ → Option ℕ
get_leader_for_skip skip ordered_validators =
    get_elem? ordered_validators (skip % length ordered_validators)

module _ {S : Type 0} (app : App S) where
  unfoldable pub ordering_hash : ℕ → ℕ → ℕ
  ordering_hash height skips =
      from_little_endian (app.sha256 (be_bytes 8 height ++ be_bytes 8 skips))

  -- `Peer::distance`
  unfoldable pub distance : ℕ → ℕ → ℕ
  distance peer other = bit_xor other (app.to_u256 peer)

  unfoldable pub ordered_validators : ManifestContent S → List ℕ
  unfolding sort_by_key distance ordering_hash
  ordered_validators m = sort_by_key (λ a. distance a (ordering_hash m.height m.skips)) m.validators

  unfoldable pub manifest_leader_for_skip : ManifestContent S → ℕ → Option ℕ
  unfolding get_leader_for_skip ordered_validators
  manifest_leader_for_skip m skip = get_leader_for_skip skip (ordered_validators m)

  -- `Manifest::genesis`; the leader is taken from the validators in the order given.
  pub genesis : List ℕ → Option (Manifest S)
  genesis validators = elim (get_leader_for_skip 0 validators) [
    | Option.none ↦ Option.none
    | some leader ↦ some (record {
      content = record {
        last_proposal_hash = 0;
        skips = 0;
        height = 0;
        leader_id = leader;
        state = app.genesis_state;
        validators = validators;
        accepts = [];
      };
      signature = [];
    })
  ]
