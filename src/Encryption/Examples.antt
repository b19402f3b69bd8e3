-- ===== src/Encryption/Examples.antt =====
-- The cipher and the checksum at a few bytes.
use game_programmer_portfoli.Base.{ℕ, ◌≡◌, refl, List, [], ◌∷◌, arith}
use game_programmer_portfoli.Encryption.{encode, decode}
use game_programmer_portfoli.Encryption.RoundTrip.{decode-encode}
use game_programmer_portfoli.Encryption.CheckSum.{calculate_check_sum_detects}

abbrev plain : List ℕ
plain = 30 ∷ 10 ∷ 20 ∷ 255 ∷ []

-- The cipher hides the bytes.
encode-plain : encode 7 plain ≡ 37 ∷ 76 ∷ 138 ∷ 41 ∷ []
unfolding encode
encode-plain = refl

decode-encode_example : (decode 7 (encode 7 plain) ≡ plain) × (encode 7 (decode 7 plain) ≡ plain)
decode-encode_example =
    decode-encode 7 plain (omega arith, (omega arith, (omega arith, (omega arith, tt))))

calculate_check_sum_detects_example : ◌≡◌ {A = ℕ} 3 3
calculate_check_sum_detects_example =
    calculate_check_sum_detects (200 ∷ []) (100 ∷ []) 3 3 (omega arith) (omega arith) refl
