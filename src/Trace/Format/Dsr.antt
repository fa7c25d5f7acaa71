-- ===== src/Trace/Format/Dsr.antt =====
-- trace/cmu-trace.cc, `format_dsr`: when its reads stay inside the arrays.
use antnet.Common.{
  ℕ, zero, suc, ◌≤◌, ◌<◌, ◌≡◌, ◌↔◌, refl, Bool, true, false, some, List, [], ◌∷◌, length, get_elem?,
  get_elem?-lt, Text, >>=-some, >>=-eq-some, arith,
}
use antnet.Common.Int.{ℤ}
use antnet.Trace.Printf.{Floats, sprintf}
use antnet.Trace.Headers.{TracedPacket, HdrSr, DownLink}
use antnet.Trace.Format.Routing.{before, dsr_format, dsr_args, format_dsr}

lt-get_elem? {ℓ} :
    {A : Type ℓ} (n : ℕ) (xs : List A) {x : A} → get_elem? xs n ≡ some x → n < length xs
lt-get_elem? n [] e = cc
lt-get_elem? zero (x ∷ xs) e = omega arith
lt-get_elem? (suc n) (x ∷ xs) e = omega (arith, lt-get_elem? n xs e)

before-lt {ℓ} :
    {A : Type ℓ} (n : ℕ) (xs : List A) {x : A} → before n xs ≡ some x → (0 < n) × (n ≤ length xs)
before-lt zero xs e = cc
before-lt (suc n) xs e = (omega arith, lt-get_elem? n xs e)

lt-before {ℓ} :
    {A : Type ℓ} (n : ℕ) (xs : List A) → 0 < n → n ≤ length xs → (x : A) × (before n xs ≡ some x)
lt-before zero xs h k = absurd (omega arith)
lt-before (suc n) xs h k = get_elem?-lt n xs k

module _ {D : Type 0} where
  dsr_text :
      (floats : Floats D) (tagged newtrace : Bool) (srh : HdrSr) (first last : ℤ) (link : DownLink)
      → (s : Text) × (sprintf floats (dsr_format tagged newtrace) (dsr_args srh first last link)
          ≡ some s)
  unfolding sprintf
  dsr_text floats true newtrace srh first last link = (_, refl)
  dsr_text floats false true srh first last link = (_, refl)
  dsr_text floats false false srh first last link = (_, refl)

  -- The text of a DSR packet is defined exactly if its route reply and its list of route errors are
  -- not empty and fit their arrays; for any other packet the code reads outside of them.
  pub format_dsr-defined_iff :
      (floats : Floats D) (tagged newtrace : Bool) (p : TracedPacket D)
      → ((s : Text) × (format_dsr floats tagged newtrace p ≡ some s)) ↔ (
          (0 < p.sr.route_reply_len)
          × (p.sr.route_reply_len ≤ length p.sr.reply_addrs)
          × (0 < p.sr.num_route_errors)
          × (p.sr.num_route_errors ≤ length p.sr.down_links))
  unfolding format_dsr
  format_dsr-defined_iff floats tagged newtrace p = (
    λ (s, e).
        let (first, e₁, k₁) = >>=-eq-some (get_elem? p.sr.reply_addrs 0) _ e in
        let (last, e₂, k₂) = >>=-eq-some (before p.sr.route_reply_len p.sr.reply_addrs) _ k₁ in
        let (link, e₃, k₃) = >>=-eq-some (before p.sr.num_route_errors p.sr.down_links) _ k₂ in
        let reply = before-lt p.sr.route_reply_len p.sr.reply_addrs e₂ in
        let errors = before-lt p.sr.num_route_errors p.sr.down_links e₃ in
        (reply.0, reply.1, errors.0, errors.1),
    λ (a, b, c, d).
        >>=-some (get_elem? p.sr.reply_addrs 0) _ (get_elem?-lt 0 p.sr.reply_addrs (omega arith)).1
          (λ first.
            >>=-some (before p.sr.route_reply_len p.sr.reply_addrs) _
              (lt-before p.sr.route_reply_len p.sr.reply_addrs a b).1
              (λ last.
                >>=-some (before p.sr.num_route_errors p.sr.down_links) _
                  (lt-before p.sr.num_route_errors p.sr.down_links c d).1
                  (λ link. dsr_text floats tagged newtrace p.sr first last link))),
  )
