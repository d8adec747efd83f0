-- ===== src/Tests/Protocol.antt =====
-- The ids of internal/protocol at concrete bytes.
use s3_agent.Prelude.{ℕ, ◌≡◌, refl, List, [], ◌∷◌, All, codes, arith}
use s3_agent.Protocol.Uuid.{new_uuid, IsByte, IsUuid, new_uuid_lem}

abbrev random : List ℕ
random = 0 ∷ 17 ∷ 34 ∷ 51 ∷ 68 ∷ 85 ∷ 255 ∷ 119 ∷ 255 ∷ 153 ∷ 170 ∷ 187 ∷ 204 ∷ 221 ∷ 238 ∷ 1 ∷ []

random_id : new_uuid random ≡ codes "00112233-4455-4f77-bf99-aabbccddee01"
unfolding new_uuid
random_id = refl

random-AreBytes : All IsByte random
random-AreBytes = ground arith

new_uuid_lem_example : IsUuid random (new_uuid random)
new_uuid_lem_example =
    new_uuid_lem 0 17 34 51 68 85 255 119 255 153 170 187 204 221 238 1 random-AreBytes
