-- ===== src/Trace/Format/Sctp.antt =====
-- trace/cmu-trace.cc, `format_sctp`: what is left of the chunks.
use antnet.Common.{
  ℕ, zero, suc, ◌+◌, ◌≤◌, ◌≡◌, refl, ap, ◌∙◌, Bool, true, false, some, [], length, get_elem?,
  get_elem?-lt, All, >>=-some, All-get_elem?, Text, arith,
}
use antnet.Trace.Headers.{TracedPacket, Chunk, Sim}
use antnet.Trace.Format.Transport.{chunk_letter, format_chunk, format_chunks, format_sctp}

-- A chunk of a type that the code knows.
abbrev pub IsKnown : {D : Type 0} → Sim D → Chunk → Type 0
IsKnown sim c = (letter : ℕ) × (chunk_letter sim.codes_of c.chunk_type ≡ some letter)

module _ {D : Type 0} where
  format_chunk-defined :
      (sim : Sim D) (tagged newtrace : Bool) (p : TracedPacket D) (c : Chunk)
      → IsKnown sim c
      → (s : Text) × (format_chunk sim tagged newtrace p c ≡ some s)
  unfolding format_chunk
  format_chunk-defined sim tagged true p c (letter, e) = >>=-some _ _ e (λ l. (_, refl))
  format_chunk-defined sim tagged false p c (letter, e) = >>=-some _ _ e (λ l. (_, refl))

module _ {D : Type 0} (sim : Sim D) (tagged newtrace : Bool) (p : TracedPacket D) where
  one_round :
      (left i : ℕ) (written : Text)
      → All (IsKnown sim) p.sctp.sctp_trace
      → i + 1 ≤ length p.sctp.sctp_trace
      → (c : Chunk) × (s : Text) × (get_elem? p.sctp.sctp_trace i ≡ some c)
        × (format_chunk sim tagged newtrace p c ≡ some s)
        × (format_chunks sim tagged newtrace p (suc left) i written
            ≡ format_chunks sim tagged newtrace p left (i + 1) s)
  unfolding format_chunks
  one_round left i written known h =
      let (c, e) = get_elem?-lt i p.sctp.sctp_trace (omega arith) in
      let (s, e') =
        format_chunk-defined sim tagged newtrace p c
          (All-get_elem? (IsKnown sim) p.sctp.sctp_trace i known e) in
      (c, s, e, e', rw (e, e') refl)

  -- The rounds from `i` on leave the text of the last chunk.
  format_chunks-last :
      (left i : ℕ) (written : Text)
      → All (IsKnown sim) p.sctp.sctp_trace
      → i + suc left ≤ length p.sctp.sctp_trace
      → (c : Chunk) × (s : Text) × (get_elem? p.sctp.sctp_trace (i + left) ≡ some c)
        × (format_chunk sim tagged newtrace p c ≡ some s)
        × (format_chunks sim tagged newtrace p (suc left) i written ≡ some s)
  unfolding format_chunks
  format_chunks-last zero i written known h =
      let (c, s, e, e', step) = one_round zero i written known (omega arith) in
      let same : i + 0 ≡ i = omega arith in (c, s, rw same e, e', step)
  format_chunks-last (suc left) i written known h =
      let (c, s, e, e', step) = one_round (suc left) i written known (omega arith) in
      let (c', s', last, text, rest) = format_chunks-last left (i + 1) s known (omega arith) in
      let same : i + suc left ≡ i + 1 + left = omega arith in
      (c', s', rw same last, text, step ∙ rest)

  -- For a packet with `n + 1` chunks, all there and of types that the code knows, the text is
  -- defined, and it is that of the last chunk alone: every chunk before it is overwritten.
  pub format_sctp-last :
      (n : ℕ)
      → p.sctp.num_chunks ≡ suc n
      → suc n ≤ length p.sctp.sctp_trace
      → All (IsKnown sim) p.sctp.sctp_trace
      → (c : Chunk) × (s : Text) × (get_elem? p.sctp.sctp_trace n ≡ some c)
        × (format_chunk sim tagged newtrace p c ≡ some s)
        × (format_sctp sim tagged newtrace p ≡ some s)
  unfolding format_sctp
  format_sctp-last n count there known =
      let (c, s, last, text, all) = format_chunks-last n 0 [] known (omega arith) in
      let same : 0 + n ≡ n = omega arith in
      (
        c,
        s,
        rw same at last,
        text,
        ap (λ k. format_chunks sim tagged newtrace p k 0 []) count ∙ all,
      )
