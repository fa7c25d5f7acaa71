-- ===== src/Trace/Format/Transport.antt =====
-- trace/cmu-trace.cc: the text of the headers of IP, ARP and the transport protocols.
use antnet.Common.{
  ℕ, zero, suc, ◌==◌, ◌+◌, if◌then◌else◌, ◌||◌, Bool, false, Option, none, some, [], ◌∷◌, get_elem?,
  Text, codes, ◌>>=◌,
}
use antnet.Common.Int.{ℤ, pos, negsuc}
use antnet.Trace.Printf.{int, chr, str, sprintf}
use antnet.Trace.Object.{type_name}
use antnet.Trace.Format.Routing.{by_format}
use antnet.Trace.Headers.{Codes, TracedPacket, Chunk, Sim}

abbrev pub no_less_than_zero : ℤ → ℤ
no_less_than_zero (pos n) = pos n
no_less_than_zero (negsuc n) = pos 0

abbrev pub same_int : ℤ → ℤ → Bool
same_int (pos m) (pos n) = m == n
same_int (negsuc m) (negsuc n) = m == n
same_int _ _ = false

-- The letter of a chunk; `none` is a failed assertion.
unfoldable pub chunk_letter : Codes → ℕ → Option ℕ
chunk_letter k type =
    if (type == k.sctp_chunk_init)
      || (type == k.sctp_chunk_init_ack)
      || (type == k.sctp_chunk_cookie_echo)
      || (type == k.sctp_chunk_cookie_ack)
    then some b'I'
    else if type == k.sctp_chunk_data
    then some b'D'
    else if type == k.sctp_chunk_sack
    then some b'S'
    else if type == k.sctp_chunk_forward_tsn
    then some b'R'
    else if type == k.sctp_chunk_hb
    then some b'H'
    else if type == k.sctp_chunk_hb_ack
    then some b'B'
    else none

module _ {D : Type 0} (sim : Sim D) (tagged newtrace : Bool) where
  unfoldable pub format_ip : TracedPacket D → Option Text
  unfolding sprintf type_name
  format_ip p =
      let ch = p.packet.ch in
      let ih = p.packet.ih in
      let src = int (sim.nodeaddr ih.saddr) in
      let dst = int (sim.nodeaddr ih.daddr) in
      if tagged || newtrace
      then (type_name sim.info ch.ptype >>= λ ptype.
          sprintf sim.floats
            (if tagged
              then codes "-IP:s %d -IP:sp %d -IP:d %d -IP:dp %d -p %s -e %d -c %d -i %d -IP:ttl %d "
              else codes "-Is %d.%d -Id %d.%d -It %s -Il %d -If %d -Ii %d -Iv %d ")
            (src
              ∷ int (pos ih.sport)
              ∷ dst
              ∷ int (pos ih.dport)
              ∷ str ptype
              ∷ int (pos ch.size)
              ∷ int p.flowid
              ∷ int (pos ch.uid)
              ∷ int (pos ih.ttl)
              ∷ []))
      else sprintf sim.floats (codes "------- [%d:%d %d:%d %d %d] ") (
          src
          ∷ int (pos ih.sport)
          ∷ dst
          ∷ int (pos ih.dport)
          ∷ int (pos ih.ttl)
          ∷ int (no_less_than_zero ch.next_hop)
          ∷ [])

  pub format_arp : TracedPacket D → Option Text
  unfolding sprintf
  format_arp p =
      let ah = p.arp in
      let op = if ah.arp_op == sim.codes_of.arpop_request then codes "REQUEST" else codes "REPLY" in
      sprintf sim.floats
        (by_format tagged newtrace (codes "-arp:op %s -arp:ms %d -arp:s %d -arp:md %d -arp:d %d ")
          (codes "-P arp -Po %s -Pms %d -Ps %d -Pmd %d -Pd %d ") (codes "------- [%s %d/%d %d/%d]"))
        (str op ∷ int ah.arp_sha ∷ int ah.arp_spa ∷ int ah.arp_tha ∷ int ah.arp_tpa ∷ [])

  pub format_msg : TracedPacket D → Option Text
  format_msg p = some []

  pub format_tcp : TracedPacket D → Option Text
  unfolding sprintf
  format_tcp p =
      sprintf sim.floats
        (by_format tagged newtrace (codes "-tcp:s %d -tcp:a %d -tcp:f %d -tcp:o %d ")
          (codes "-Pn tcp -Ps %d -Pa %d -Pf %d -Po %d ") (codes "[%d %d] %d %d"))
        (int p.tcp_seqno
          ∷ int p.tcp_ackno
          ∷ int (pos p.packet.ch.num_forwards)
          ∷ int p.opt_num_forwards
          ∷ [])

  -- What one round of the loop writes.
  unfoldable pub format_chunk : TracedPacket D → Chunk → Option Text
  unfolding sprintf chunk_letter
  format_chunk p chunk = chunk_letter sim.codes_of chunk.chunk_type >>= λ letter.
      sprintf sim.floats
        (if newtrace
          then codes "-Pn sctp -Pnc %d -Pct %c -Ptsn %d -Psid %d -Pssn %d -Pf %d -Po %d "
          else codes "[%d %c %d %d %d] %d %d")
        (int (pos p.sctp.num_chunks)
          ∷ chr letter
          ∷ int chunk.tsn
          ∷ int chunk.stream_id
          ∷ int chunk.stream_seq_num
          ∷ int (pos p.packet.ch.num_forwards)
          ∷ int p.opt_num_forwards
          ∷ [])

  -- The loop, with the rounds left. Every round writes to the same place of the buffer, so that its
  -- text replaces what the round before wrote.
  unfoldable pub format_chunks : TracedPacket D → ℕ → ℕ → Text → Option Text
  format_chunks p zero i written = some written
  format_chunks p (suc left) i written = get_elem? p.sctp.sctp_trace i >>= λ chunk.
      format_chunk p chunk >>= λ written'. format_chunks p left (i + 1) written'

  unfoldable pub format_sctp : TracedPacket D → Option Text
  unfolding format_chunks
  format_sctp p = format_chunks p p.sctp.num_chunks 0 []

  -- Whether a node that gets a packet for itself is marked as being in the route; `none` is a null
  -- pointer.
  pub marks_inroute : ℤ → TracedPacket D → Option Bool
  marks_inroute src p =
      if same_int (sim.nodeaddr p.packet.ih.daddr) src
      then (sim.node_at src >>= λ node.
          some (elim (node.energy_model) [ none ↦ false | some model ↦ model.powersavingflag ]))
      else some false

  pub format_rtp : TracedPacket D → Option Text
  unfolding sprintf
  format_rtp p =
      sprintf sim.floats
        (by_format tagged newtrace (codes "-cbr:s %d -cbr:f %d -cbr:o %d ")
          (codes "-Pn cbr -Pi %d -Pf %d -Po %d ") (codes "[%d] %d %d"))
        (int p.rtp_seqno ∷ int (pos p.packet.ch.num_forwards) ∷ int p.opt_num_forwards ∷ [])
