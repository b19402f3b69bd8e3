-- ===== src/Packet/Examples.antt =====
-- A packet of seven bytes, of which five are read.
use game_programmer_portfoli.Base.{
  ℕ, ◌≡◌, refl, ◌∙◌, false, List, [], ◌∷◌, some, length, replicate, blit, length-replicate,
  length-blit, arith,
}
use game_programmer_portfoli.Packet.{Packet}
use game_programmer_portfoli.Packet.Bounds.{IsValid, step, step-IsValid, puts_data}
use game_programmer_portfoli.Packet.Bytes.{to_bytes}
use game_programmer_portfoli.Packet.Fields.{
  Field, put_fields, get_fields, get_fields-put_fields, image, AllFit,
}

abbrev packet : Packet
packet = record {
  session_id = 3;
  storage = blit (replicate 2048 0) 5 (10 ∷ 20 ∷ []);
  data_size = 7;
  read_pos = 5;
  ref_cnt = 1;
  is_encoding = false;
}

packet-IsValid : IsValid packet
packet-IsValid = record {
  storage =
      length-blit {A = ℕ} (replicate 2048 0) 5 (10 ∷ 20 ∷ []) ∙ length-replicate {A = ℕ} 2048 0;
  written = omega arith;
  unread = omega arith;
}

step-IsValid_example : IsValid (step packet (puts_data (1 ∷ 2 ∷ [])))
step-IsValid_example = step-IsValid (puts_data (1 ∷ 2 ∷ [])) packet-IsValid

-- A packet at its start, and the fields of a sector move.
abbrev fresh : Packet
fresh = record packet { data_size = 5 }

fresh-IsValid : IsValid fresh
fresh-IsValid = record {
  storage = packet-IsValid.storage;
  written = omega arith;
  unread = omega arith;
}

abbrev fields : List Field
fields =
    record { width = 2; value = 3 }
    ∷ record { width = 8; value = 77 }
    ∷ record { width = 2; value = 300 }
    ∷ []

length-image : length (image fields) ≡ 12
unfolding image to_bytes
length-image = refl

get_fields-put_fields_example :
    get_fields (put_fields fresh fields) (2 ∷ 8 ∷ 2 ∷ []) ≡ some 3 ∷ some 77 ∷ some 300 ∷ []
unfolding AllFit
get_fields-put_fields_example =
    get_fields-put_fields fields fresh fresh-IsValid refl
      (omega arith, (omega arith, (omega arith, tt))) (omega (arith, length-image))
