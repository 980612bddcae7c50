-- ===== src/Solid/Leader/Examples.antt =====
-- The order of four validators (manifest.rs).
use zerosats.Prelude.{ℕ, ◌<◌, ◌≡◌, refl, some, [], ◌∷◌, arith}
use zerosats.Solid.Types.{ManifestContent}
use zerosats.Solid.Leader.{ordered_validators, manifest_leader_for_skip}
use zerosats.Solid.Leader.Order.{leader-reaches}
use zerosats.Solid.Leader.Agreed.{ordered_validators_agree}
use zerosats.Solid.Demo.{demo, four, first_manifest}

ordered_test : ordered_validators demo first_manifest.content ≡ four
unfolding ordered_validators
ordered_test = refl

-- The manifest as another node may list it
abbrev shuffled : ManifestContent ℕ
shuffled = record first_manifest.content { validators = 4 ∷ 2 ∷ 3 ∷ 1 ∷ [] }

ordered_validators_agree_example :
    (ordered_validators demo first_manifest.content ≡ ordered_validators demo shuffled)
    × ((skip : ℕ)
        → manifest_leader_for_skip demo first_manifest.content skip
          ≡ manifest_leader_for_skip demo shuffled skip)
ordered_validators_agree_example =
    ordered_validators_agree demo first_manifest.content shuffled refl refl (λ v. ground arith)
      (λ a b p q h. h)

leader-reaches_example :
    (skip : ℕ) × (skip < 4) × (manifest_leader_for_skip demo first_manifest.content skip ≡ some 3)
leader-reaches_example = leader-reaches demo first_manifest.content 3 refl
