-- ===== src/Packet/Data/Tests.antt =====
-- A packet with two bytes of data.
use antnet.Common.{ℕ, ◌≡◌, ◌≢◌, refl, none, some, [], ◌∷◌, true, arith}
use antnet.Common.Int.{pos}
use antnet.Packet.Alloc.{zeroed}
use antnet.Packet.Data.{OtherData, Store, packet_data, user_data_of, accessdata, copy}
use antnet.Packet.Data.Copied.{HasBytes, copy-HasBytes}

-- Objects of another class that are their sizes.
abbrev sizes : OtherData ℕ
sizes = record { size = pos; copy = λ n. n }

-- The one packet, in use.
abbrev carrier : Store ℕ
carrier = record {
  heap = record {
    cells = λ p. record {
      bits = zeroed;
      user_data = some 0;
      uid = pos 0;
      fflag = true;
      ref_count = 0;
      next = none;
    };
    free_list = none;
    made = 1;
  };
  objects = λ i. some (packet_data (record { data_ = some (7 ∷ 9 ∷ []); datalen = pos 2 }));
  made = 1;
}

carrier-HasBytes : HasBytes carrier 0 1 (7 ∷ 9 ∷ [])
carrier-HasBytes = record {
  made = omega arith;
  live = refl;
  place = 0;
  pointer = refl;
  known = omega arith;
  object = refl;
  enough = omega arith;
}

copy-HasBytes_example :
    (q : ℕ) × (s' : Store ℕ) × (copy sizes 0 carrier ≡ some (q, s'))
    × (q ≢ 0)
    × ((s'.heap.cells q).bits ≡ zeroed)
    × (accessdata s' q ≡ some (some (7 ∷ 9 ∷ [])))
    × (accessdata s' 0 ≡ some (some (7 ∷ 9 ∷ [])))
    × (user_data_of s' q ≢ user_data_of s' 0)
copy-HasBytes_example =
    copy-HasBytes sizes carrier [] 0 1 (7 ∷ 9 ∷ [])
      (record { linked = refl; distinct = tt; idle = tt }) carrier-HasBytes
