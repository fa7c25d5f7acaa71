-- ===== src/Fixture.antt =====
-- Concrete data that the tests share: exact arithmetic, a generator, a table and an agent.
use antnet.Common.{
  none-ne-some, ℕ, zero, suc, ◌%◌, ◌≡◌, refl, subst, ◌==◌, Bool-cases, inl, inr, none, some, List,
  [], ◌∷◌, arith, IsDistinct,
}
use mathlib.Core.Quot
use mathlib.Core.Quot.{Quot}
use mathlib.Core.Option.{some-injective}
use antnet.Common.Map.{find}
use antnet.Rtable.Update.{neighbors_of}
use antnet.Rtable.Invariant.{IsStochastic, IsTable}
use antnet.Common.Int.{pos}
use antnet.Double.{nought}
use antnet.Double.Ratio.{Ratio, ratio_double}
use antnet.Packet.{Packet, Memory, Dir, down, rt_port, forward_ant, ant_size, ns_af_inet}
use antnet.Packet.Numbers.{pt_ant}
use antnet.Rtable.{Rng, PheromoneMatrix, RtableT}
use antnet.Agent.State.{Antnet, Env}

abbrev pub half : Ratio
half = ratio_double.ratio 1 2

-- A generator that counts its draws, and draws zero from a range of reals.
abbrev pub counter : Rng ℕ Ratio
counter = record {
  seeded = λ seed. seed;
  uniform_int = λ s n. (s % n, suc s);
  uniform = λ s x. (nought, suc s);
}

-- Two links, to nodes 1 and 2, with the same pheromone.
abbrev pub two_links : PheromoneMatrix Ratio
two_links = record { neighbor = 1; phvalue = half } ∷ record { neighbor = 2; phvalue = half } ∷ []

abbrev pub small_table : RtableT Ratio
small_table = (2, two_links) ∷ []

-- The agent of node `n`, whose neighbours are 1 and 2.
abbrev pub agent_at : ℕ → Antnet ℕ Ratio
agent_at n = record {
  addr = n;
  ra_addr = n;
  rtable = record { rt = small_table; rnum = 0 };
  state = [];
  window = [];
  ant_seq_num = 255;
  dmux = none;
  logtarget = none;
  ant_timer = none;
  r_factor = half;
  timer_ant = half;
  num_nodes = 3;
}

abbrev pub entry : ℕ → Memory Ratio
entry n = record { node_addr = n; trip_time = nought }

abbrev pub memory_of : List ℕ → List (Memory Ratio)
memory_of ns = pad 16 ns
  where
    pad : ℕ → List ℕ → List (Memory Ratio)
    pad zero ns = []
    pad (suc n) [] = entry 0 ∷ pad n []
    pad (suc n) (m ∷ ns) = entry m ∷ pad n ns

-- An ant with a path, in its direction, on the link from `saddr` to `daddr`.
abbrev pub ant : Dir → List ℕ → ℕ → ℕ → ℕ → ℕ → ℕ → Packet Ratio
ant dir ns size src dst saddr daddr = record {
  ch = record {
    ptype = pt_ant;
    size = 27;
    uid = 0;
    error = 0;
    direction = dir;
    next_hop = pos daddr;
    addr_type = ns_af_inet;
    last_hop = pos saddr;
    num_forwards = 0;
  };
  ih = record { saddr = saddr; sport = rt_port; daddr = daddr; dport = rt_port; ttl = 6 };
  ah = record {
    pkt_type = forward_ant;
    pkt_src = src;
    pkt_dst = dst;
    pkt_len = ant_size;
    pkt_seq_num = 0;
    pkt_start_time = nought;
    pkt_memory = memory_of ns;
    pkt_mem_size = size;
  };
}

abbrev pub small_env : Env ℕ Ratio
small_env = record {
  now = nought;
  neighbor_list = λ n. 1 ∷ 2 ∷ [];
  drop_queue = λ n m. m;
  rng = counter;
  allocpkt = ant down [] 0 0 0 0 0;
  ip_hdr_len = 20;
}

pub two_links-IsStochastic : IsStochastic two_links
two_links-IsStochastic = record {
  in_unit = ((refl, refl), ((refl, refl), tt));
  total = Quot.sound (omega arith);
}

pub small_table-IsTable : IsTable (1 ∷ 2 ∷ []) small_table
unfolding find
small_table-IsTable = record { sorted = tt; rows = rows_of }
  where
    rows_of :
        (dest : ℕ) (row : PheromoneMatrix Ratio)
        → find dest small_table ≡ some row
        → (neighbors_of row ≡ 1 ∷ 2 ∷ []) × IsStochastic row
    rows_of dest row e = elim (Bool-cases (2 == dest)) [
      | inl hit ↦
          subst (λ r. (neighbors_of r ≡ 1 ∷ 2 ∷ []) × IsStochastic r)
            (some-injective _ _ (rw hit at e)) (refl, two_links-IsStochastic)
      | inr miss ↦ absurd (none-ne-some (rw miss at e))
    ]

pub IsDistinct-links : IsDistinct (1 ∷ 2 ∷ [])
IsDistinct-links = ground arith
