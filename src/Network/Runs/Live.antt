-- ===== src/Network/Runs/Live.antt =====
-- What holds in every run of a network of sound tables.
use antnet.Common.{
  ℕ, ◌+◌, ◌%◌, ◌^◌, ◌≡◌, ◌≢◌, refl, sym, ap, ◌∙◌, inl, inr, some, List, [], ◌∷◌, ◌++◌, Has,
  IsDistinct, All, All-middle, All-append, All-replace, subst, >>=-eq-some,
}
use mathlib.Core.Option.{some-injective}
use antnet.Double.{Double, nought}
use antnet.Double.Laws.{IsExact, le_refl}
use antnet.Packet.{Packet}
use antnet.Rtable.Invariant.{IsTable}
use antnet.Agent.State.{Antnet, Env, Event, sent, freed, dropped}
use antnet.Agent.Memorize.Path.{path, IsArray}
use antnet.Agent.Send.{new_ant, routed, send_ant_pkt, expire, resched, reset_ant_timer}
use antnet.Agent.Send.Start.{IsSent, send_ant_pkt-IsSending}
use antnet.Agent.Receive.{recv}
use antnet.Rtable.Update.{InUnit}
use antnet.Agent.Command.{start}
use antnet.Agent.Command.Cases.{start-IsStarted, start-IsTable}
use antnet.Network.{Net, put}
use antnet.Network.Journey.{put-IsAddressed}
use antnet.Network.Tables.{put-IsSound}
use antnet.Network.Carried.{IsAnt, IsFate}
use antnet.Network.Handled.{IsSafe, recv-IsHandled}
use antnet.Network.Runs.{
  World, sent_of, IsFresh, deliver, lost, timer, Reach, here, later, started, IsLive,
}

module _ {D : Type 0} (nbrs : ℕ → List ℕ) where
  sent_of-IsAnt : (e : Event (Packet D)) → IsFate nbrs e → All (IsAnt nbrs) (sent_of (e ∷ []))
  sent_of-IsAnt (sent p) h = (h, tt)
  sent_of-IsAnt (freed p) h = tt
  sent_of-IsAnt (dropped p why) h = tt

module _ {R D : Type 0} ⦃d : Double D⦄ (laws : IsExact D) (nbrs : ℕ → List ℕ)
    (distinct : (n : ℕ) → IsDistinct (nbrs n)) (num_nodes : ℕ) where
  deliver-IsLive :
      (w : World R D) (env : Env R D) (xs ys : List (Packet D)) (p : Packet D) (a : Antnet R D)
      (es : List (Event (Packet D)))
      → w.flying ≡ xs ++ p ∷ ys
      → recv env (w.net p.ih.daddr) p ≡ some (a, es)
      → IsLive nbrs w
      → IsLive nbrs (record { net = put w.net p.ih.daddr a; flying = xs ++ (sent_of es ++ ys) })
  deliver-IsLive w env xs ys p a es split defined l =
      let all = subst (All (IsAnt nbrs)) split l.ants in
      let (a', e, got, step) =
        recv-IsHandled laws nbrs distinct env w.net p l.safe
          (All-middle (IsAnt nbrs) xs ys p all) in
      let both = some-injective _ _ (sym got ∙ defined) in
      let agent : a' ≡ a = ap (λ (r : Antnet R D × List (Event (Packet D))). r.0) both in
      let only : e ∷ [] ≡ es = ap (λ (r : Antnet R D × List (Event (Packet D))). r.1) both in
      record {
        safe = subst (λ b. IsSafe nbrs (put w.net p.ih.daddr b)) agent step.safe;
        ants =
            All-replace (IsAnt nbrs) xs ys (sent_of es) p all
              (subst (λ fs. All (IsAnt nbrs) (sent_of fs)) only (sent_of-IsAnt nbrs e step.fate));
      }

  -- An ant that sets out.
  new_ant-IsFate :
      (env : Env R D) (a : Antnet R D) (dest : ℕ) (e : Event (Packet D))
      → IsFresh env
      → dest ≢ a.addr
      → IsArray (new_ant env a dest env.allocpkt)
      → path (new_ant env a dest env.allocpkt) ≡ a.addr ∷ []
      → IsTable (nbrs a.addr) a.rtable.rt
      → IsSent num_nodes a dest (new_ant env a dest env.allocpkt) e
      → IsFate nbrs e
  unfolding new_ant routed
  new_ant-IsFate env a dest e fresh other arr one_node table (inl over) =
      subst (IsFate nbrs) (sym over) tt
  new_ant-IsFate env a dest e fresh other arr one_node table (inr (next, row, on, ne, got, has)) =
      subst (IsFate nbrs) (sym on) (
        inl (record {
          array = record { size = arr.size; within = arr.within };
          direction = refl;
          ptype = refl;
          sport = fresh.sport;
          dport = fresh.dport;
          nodes = [];
          start = one_node;
          distinct = subst IsDistinct (sym one_node) (tt, tt);
          follows = tt;
          ends = refl;
          link = subst (Has next) (table.rows dest row got).0 has;
          other = λ e. ne (sym e);
          far = other;
        }))

  put-IsSafe :
      (net : Net R D) (n : ℕ) (a : Antnet R D)
      → a.addr ≡ n
      → a.ra_addr ≡ n
      → a.rtable.rt ≡ (net n).rtable.rt
      → a.r_factor ≡ (net n).r_factor
      → IsSafe nbrs net
      → IsSafe nbrs (put net n a)
  put-IsSafe net n a addr ra_addr rows factor s = record {
    addressed = put-IsAddressed net n a addr ra_addr s.addressed;
    sound = put-IsSound nbrs net n a (rw rows (s.sound n).0) (rw factor (s.sound n).1) s.sound;
  }

  timer-IsLive :
      (w : World R D) (env : Env R D) (fuel n : ℕ) (a : Antnet R D) (es : List (Event (Packet D)))
      → IsFresh env
      → expire fuel env num_nodes (w.net n) ≡ some (a, es)
      → IsLive nbrs w
      → IsLive nbrs (record { net = put w.net n a; flying = w.flying ++ sent_of es })
  unfolding expire reset_ant_timer resched
  timer-IsLive w env fuel n a es fresh defined l =
      let b = w.net n in
      let ((b', fs), sends, ends) =
        >>=-eq-some (send_ant_pkt fuel env num_nodes b)
          (λ (a', events). some (reset_ant_timer a', events)) defined in
      let s =
        send_ant_pkt-IsSending fuel env num_nodes b b' fs sends fresh.size (le_refl laws nought) in
      let c = record b { ant_seq_num = (b.ant_seq_num + 1) % 2 ^ 8; rtable = s.table } in
      let both = some-injective _ _ ends in
      let agent =
        ap reset_ant_timer (sym s.agent)
        ∙ ap (λ (r : Antnet R D × List (Event (Packet D))). r.0) both in
      let only = sym s.only ∙ ap (λ (r : Antnet R D × List (Event (Packet D))). r.1) both in
      let (addr, ra_addr) = l.safe.addressed n in
      let table = subst (λ k. IsTable (nbrs k) b.rtable.rt) (sym addr) (l.safe.sound n).0 in
      record {
        safe =
            subst (λ x. IsSafe nbrs (put w.net n x)) agent
              (put-IsSafe w.net n (reset_ant_timer c) addr ra_addr s.rows refl l.safe);
        ants = All-append (IsAnt nbrs) w.flying (sent_of es) l.ants (
            subst (λ fs. All (IsAnt nbrs) (sent_of fs)) only
              (sent_of-IsAnt nbrs s.event
                (new_ant-IsFate env b s.dest s.event fresh s.other s.array s.start table s.to)));
      }

  started-IsLive :
      (w : World R D) (env : Env R D) (n : ℕ)
      → env.neighbor_list n ≡ nbrs n
      → (w.net n).rtable.rt ≡ []
      → IsLive nbrs w
      → IsLive nbrs (record { net = put w.net n (start env (w.net n)).agent; flying = w.flying })
  started-IsLive w env n listed empty l =
      let a = w.net n in
      let kept = start-IsStarted env a in
      let (addr, ra_addr) = l.safe.addressed n in
      record {
        safe = record {
          addressed =
              put-IsAddressed w.net n (start env a).agent (kept.same_addr ∙ addr)
                (kept.same_ra_addr ∙ ra_addr) l.safe.addressed;
          sound =
              put-IsSound nbrs w.net n (start env a).agent
                (start-IsTable laws env a (nbrs n) (ap env.neighbor_list addr ∙ listed) empty)
                (subst InUnit (sym kept.same_factor) (l.safe.sound n).1) l.safe.sound;
        };
        ants = l.ants;
      }

  pub Reach-IsLive : {w t : World R D} → Reach nbrs num_nodes w t → IsLive nbrs w → IsLive nbrs t
  Reach-IsLive here l = l
  Reach-IsLive (later r (deliver env xs ys p split defined)) l =
      deliver-IsLive _ env xs ys p _ _ split defined (Reach-IsLive r l)
  Reach-IsLive (later r (lost xs ys p split)) l =
      let m = Reach-IsLive r l in
      record {
        safe = m.safe;
        ants = All-replace (IsAnt nbrs) xs ys [] p (subst (All (IsAnt nbrs)) split m.ants) tt;
      }
  Reach-IsLive (later r (started env n listed empty)) l =
      started-IsLive _ env n listed empty (Reach-IsLive r l)
  Reach-IsLive (later r (timer env fuel n fresh defined)) l =
      timer-IsLive _ env fuel n _ _ fresh defined (Reach-IsLive r l)
