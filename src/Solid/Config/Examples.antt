-- ===== src/Solid/Config/Examples.antt =====
-- The thresholds of config.rs at four validators.
use zerosats.Prelude.{
  ◌-◌, ◌*◌, ◌<◌, ◌≡◌, refl, ◌↔◌, true, false, [], ◌∷◌, arith, common, NoRepeats, Within,
}
use zerosats.Solid.Config.{more_than_two_thirds, inverse_exceeded, is_exceeded}
use zerosats.Solid.Config.Quorum.{quorum_intersection, inverse_exceeded_iff}

left_once : NoRepeats (1 ∷ 2 ∷ 3 ∷ [])
left_once a = ground arith

right_once : NoRepeats (2 ∷ 3 ∷ 4 ∷ [])
right_once a = ground arith

left-Within : Within (1 ∷ 2 ∷ 3 ∷ []) (1 ∷ 2 ∷ 3 ∷ 4 ∷ [])
left-Within a h = ground arith

right-Within : Within (2 ∷ 3 ∷ 4 ∷ []) (1 ∷ 2 ∷ 3 ∷ 4 ∷ [])
right-Within a h = ground arith

quorum_intersection_example : 4 < 3 * common (1 ∷ 2 ∷ 3 ∷ []) (2 ∷ 3 ∷ 4 ∷ [])
unfolding is_exceeded
quorum_intersection_example =
    quorum_intersection (1 ∷ 2 ∷ 3 ∷ []) (2 ∷ 3 ∷ 4 ∷ []) (1 ∷ 2 ∷ 3 ∷ 4 ∷ []) left_once right_once
      left-Within right-Within refl refl

inverse_exceeded_iff_example :
    (inverse_exceeded more_than_two_thirds 2 4 ≡ true)
    ↔ (is_exceeded more_than_two_thirds (4 - 2) 4 ≡ false)
inverse_exceeded_iff_example =
    inverse_exceeded_iff more_than_two_thirds 2 4 (omega arith) (omega arith) (omega arith)
