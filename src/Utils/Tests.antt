-- ===== src/Utils/Tests.antt =====
-- Words at the edge of `int16`, and the theorems about it there.
use pyaseba.Base.{◌≡◌, ◌≢◌, ◌↔◌, ℕ, refl, pos, negsuc, arith}
use pyaseba.Utils.{int16}
use pyaseba.Utils.Words.{signed16, int16-signed16}

-- The least word with the sign bit set keeps its unsigned value, and the next one does not.
edge_words : (int16 (pos 32768) ≡ pos 32768) × (int16 (pos 32769) ≡ negsuc 32766)
unfolding int16
edge_words = (refl, refl)

int16-signed16_example : (int16 (pos 40000) ≡ signed16 40000) ↔ ◌≢◌ {A = ℕ} 40000 32768
int16-signed16_example = int16-signed16 40000 (omega arith)
