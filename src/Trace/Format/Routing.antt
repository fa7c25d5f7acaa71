-- ===== src/Trace/Format/Routing.antt =====
-- trace/cmu-trace.cc: the text of the routing protocols' headers. `none` is undefined behaviour or
-- `abort`.
use Prim.Native.Nat.{bit_and}
use antnet.Common.{
  ℕ, zero, suc, ◌==◌, if◌then◌else◌, ◌||◌, Bool, Option, none, some, List, [], ◌∷◌, ◌++◌, get_elem?,
  Text, codes, ◌>>=◌,
}
use antnet.Common.Int.{ℤ, pos}
use antnet.Trace.Printf.{Floats, Arg, int, chr, str, dbl, sprintf}
use antnet.Trace.Headers.{Codes, TracedPacket, HdrSr, DownLink, HdrRequest}

-- The element before `n` of an array: `xs[n - 1]`.
abbrev pub before {ℓ} : {A : Type ℓ} → ℕ → List A → Option A
before zero xs = none
before (suc n) xs = get_elem? xs n

-- A text that depends on the format of the trace.
abbrev pub by_format : Bool → Bool → Text → Text → Text → Text
by_format tagged newtrace t n o = if tagged then t else if newtrace then n else o

-- The name of a reply, by the codes that it is compared with.
abbrev pub reply_name : ℕ → ℕ → ℕ → Text
reply_name rrep rerr type =
    if type == rrep then codes "REPLY" else if type == rerr then codes "ERROR" else codes "HELLO"

abbrev pub request_args : {D : Type 0} → HdrRequest → List (Arg D)
request_args rq =
    int rq.rq_type
    ∷ int rq.rq_hop_count
    ∷ int rq.rq_bcast_id
    ∷ int rq.rq_dst
    ∷ int rq.rq_dst_seqno
    ∷ int rq.rq_src
    ∷ int rq.rq_src_seqno
    ∷ []

abbrev pub dsr_format : Bool → Bool → Text
dsr_format tagged newtrace =
    by_format tagged newtrace
      (codes
        "-dsr:h %d -dsr:q %d -dsr:s %d -dsr:p %d -dsr:n %d -dsr:l %d -dsr:e {%d %d} -dsr:w %d -dsr:m %d -dsr:c %d -dsr:b {%d %d} ")
      (codes
        "-P dsr -Ph %d -Pq %d -Ps %d -Pp %d -Pn %d -Pl %d -Pe %d->%d -Pw %d -Pm %d -Pc %d -Pb %d->%d ")
      (codes "%d [%d %d] [%d %d %d %d->%d] [%d %d %d %d->%d]")

abbrev pub dsr_args : {D : Type 0} → HdrSr → ℤ → ℤ → DownLink → List (Arg D)
dsr_args srh first last link =
    int srh.num_addrs
    ∷ int srh.route_request
    ∷ int srh.rtreq_seq
    ∷ int srh.route_reply
    ∷ int srh.rtreq_seq
    ∷ int (pos srh.route_reply_len)
    ∷ int first
    ∷ int last
    ∷ int srh.route_error
    ∷ int (pos srh.num_route_errors)
    ∷ int link.tell_addr
    ∷ int link.from_addr
    ∷ int link.to_addr
    ∷ []

module _ {D : Type 0} (floats : Floats D) (tagged newtrace : Bool) where
  unfoldable pub format_antnet : TracedPacket D → Option Text
  unfolding sprintf
  format_antnet p =
      let ah = p.packet.ah in
      let args = int (pos ah.pkt_src) ∷ int (pos ah.pkt_seq_num) ∷ int (pos ah.pkt_len) ∷ [] in
      sprintf floats
        (by_format tagged newtrace (codes "-ant:o %d -ant:s %d -ant:l %d ")
          (codes "-P ant -Po %d -Ps %d -Pl %d ") (codes "[ant %d %d %d] "))
        args

  unfoldable pub format_dsr : TracedPacket D → Option Text
  unfolding sprintf
  format_dsr p =
      let srh = p.sr in
      get_elem? srh.reply_addrs 0 >>= λ first.
      before srh.route_reply_len srh.reply_addrs >>= λ last.
      before srh.num_route_errors srh.down_links >>= λ link.
      sprintf floats (dsr_format tagged newtrace) (dsr_args srh first last link)

module _ {D : Type 0} (codes_of : Codes) (floats : Floats D) (tagged newtrace : Bool) where
  pub format_imep : TracedPacket D → Option Text
  unfolding sprintf
  format_imep p =
      let im = p.imep in
      let flag = λ (mask c : ℕ). if bit_and im.block_flags mask == 0 then b'-' else c in
      sprintf floats
        (by_format tagged newtrace (codes "-imep:a %c -imep:h %c -imep:o %c -imep:l %04x ")
          (codes "-P imep -Pa %c -Ph %c -Po %c -Pl 0x%04x ] ") (codes "[%c %c %c 0x%04x] "))
        (chr (flag codes_of.block_flag_ack b'A')
          ∷ chr (flag codes_of.block_flag_hello b'H')
          ∷ chr (flag codes_of.block_flag_object b'O')
          ∷ int im.imep_length
          ∷ [])

  pub format_tora : TracedPacket D → Option Text
  unfolding sprintf
  format_tora p =
      let th = p.tora in
      if th.th_type == codes_of.toratype_qry
      then sprintf floats
          (by_format tagged newtrace (codes "-tora:t %x -tora:d %d -tora:c QUERY")
            (codes "-P tora -Pt 0x%x -Pd %d -Pc QUERY ") (codes "[0x%x %d] (QUERY)"))
          (int th.type ∷ int th.dst ∷ [])
      else if th.th_type == codes_of.toratype_upd
      then sprintf floats
          (by_format tagged newtrace
            (codes
              "-tora:t %x -tora:d %d -tora:a %f -tora:o %d -tora:r %d -tora:e %d -tora:i %d -tora:c UPDATE")
            (codes "-P tora -Pt 0x%x -Pd %d (%f %d %d %d %d) -Pc UPDATE ")
            (codes "-Pt 0x%x -Pd %d -Pa %f -Po %d -Pr %d -Pe %d -Pi %d -Pc UPDATE "))
          (int th.type
            ∷ int th.dst
            ∷ dbl th.tau
            ∷ int th.oid
            ∷ int th.r
            ∷ int th.delta
            ∷ int th.id
            ∷ [])
      else if th.th_type == codes_of.toratype_clr
      then sprintf floats
          (by_format tagged newtrace
            (codes "-tora:t %x -tora:d %d -tora:a %f -tora:o %d -tora:c CLEAR ")
            (codes "-P tora -Pt 0x%x -Pd %d -Pa %f -Po %d -Pc CLEAR ")
            (codes "[0x%x %d %f %d] (CLEAR)"))
          (int th.type ∷ int th.dst ∷ dbl th.tau ∷ int th.oid ∷ [])
      else some []

  pub format_aodv : TracedPacket D → Option Text
  unfolding sprintf
  format_aodv p =
      let rp = p.aodv.rp in
      let type = p.aodv.ah_type in
      if type == codes_of.aodvtype_rreq
      then sprintf floats
          (by_format tagged newtrace
            (codes
              "-aodv:t %x -aodv:h %d -aodv:b %d -aodv:d %d -aodv:ds %d -aodv:s %d -aodv:ss %d -aodv:c REQUEST ")
            (codes "-P aodv -Pt 0x%x -Ph %d -Pb %d -Pd %d -Pds %d -Ps %d -Pss %d -Pc REQUEST ")
            (codes "[0x%x %d %d [%d %d] [%d %d]] (REQUEST)"))
          (request_args p.aodv.rq)
      else if (type == codes_of.aodvtype_rrep)
          || (type == codes_of.aodvtype_hello)
          || (type == codes_of.aodvtype_rerr)
      then sprintf floats
          (by_format tagged newtrace
            (codes "-aodv:t %x -aodv:h %d -aodv:d %d -adov:ds %d -aodv:l %f -aodv:c %s ")
            (codes "-P aodv -Pt 0x%x -Ph %d -Pd %d -Pds %d -Pl %f -Pc %s ")
            (codes "[0x%x %d [%d %d] %f] (%s)"))
          (int (pos rp.rp_type)
            ∷ int rp.rp_hop_count
            ∷ int rp.rp_dst
            ∷ int rp.rp_dst_seqno
            ∷ dbl rp.rp_lifetime
            ∷ str (reply_name codes_of.aodvtype_rrep codes_of.aodvtype_rerr rp.rp_type)
            ∷ [])
      else none

  -- In the old format the reply is named by the codes of AODV, and has two more fields.
  pub format_aomdv : TracedPacket D → Option Text
  unfolding sprintf
  format_aomdv p =
      let rp = p.aomdv.rp in
      let type = p.aomdv.ah_type in
      let fields =
        int (pos rp.rp_type)
        ∷ int rp.rp_hop_count
        ∷ int rp.rp_dst
        ∷ int rp.rp_dst_seqno
        ∷ dbl rp.rp_lifetime
        ∷ [] in
      if type == codes_of.aomdvtype_rreq
      then sprintf floats
          (by_format tagged newtrace
            (codes
              "-aomdv:t %x -aomdv:h %d -aomdv:b %d -aomdv:d %d -aomdv:ds %d -aomdv:s %d -aomdv:ss %d -aomdv:c REQUEST ")
            (codes "-P aomdv -Pt 0x%x -Ph %d -Pb %d -Pd %d -Pds %d -Ps %d -Pss %d -Pc REQUEST ")
            (codes "[0x%x %d %d [%d %d] [%d %d]] (REQUEST)"))
          (request_args p.aomdv.rq)
      else if (type == codes_of.aomdvtype_rrep)
          || (type == codes_of.aomdvtype_hello)
          || (type == codes_of.aomdvtype_rerr)
      then (if tagged || newtrace
          then sprintf floats
              (if tagged
                then codes
                    "-aomdv:t %x -aomdv:h %d -aomdv:d %d -admov:ds %d -aomdv:l %f -aomdv:c %s "
                else codes "-P aomdv -Pt 0x%x -Ph %d -Pd %d -Pds %d -Pl %f -Pc %s ")
              (fields
                ++ str (reply_name codes_of.aomdvtype_rrep codes_of.aomdvtype_rerr rp.rp_type) ∷ [])
          else sprintf floats (codes "[0x%x %d [%d %d] %f] (%s) [%d %d]") (
              fields
              ++ str (reply_name codes_of.aodvtype_rrep codes_of.aodvtype_rerr rp.rp_type)
                ∷ int rp.rp_bcast_id
                ∷ int rp.rp_first_hop
                ∷ []))
      else none
