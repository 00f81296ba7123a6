-- ===== src/Cluster/Steps.antt =====
-- internal/cluster/cluster.go: the steps of a cluster and the invariant.
use mathlib.Core.List.{Memᴰ}
use mathlib.Core.List.Memᴰ
use mathlib.Core.Path.{ap₂}
use mathlib.Core.Option.{some-injective}
use native.Mathlib.Nat.{le_trans}
use distsched.Base.{
  ℕ, ◌+◌, ◌≤◌, ◌≡◌, ap, ◌∙◌, subst, ◌≢◌, ◌⊎◌, true, List, [], ◌∷◌, ◌++◌, none, some, String, arith,
  sum_over, sum_over-append, inl, inr, Bool-cases,
}
use distsched.Cluster.Node.{
  Node, Env, Config, Election, VoteResult, leader, majority, with_defaults, start, start_election,
  handle_vote, peers, is_leader,
}
use distsched.Cluster.Evolves.{
  handle_vote-Evolves, observe_leader-Evolves, maybe_step_down-Evolves, start_election-Evolves,
  count_vote-Evolves, handle_vote-Leads, observe_leader-Leads, maybe_step_down-Leads, start-Evolves,
  start_leads, start_election-Leads, handle_vote-granted, count_vote_wins, count_vote_continues,
}
use distsched.Cluster.Tally.{vote_for, tally, vote_for-recorded, self-peers-le}
use distsched.Cluster.System.{
  Ballots, System, Step, restart, campaign, vote, count, heartbeat, step_down, update, record_vote,
  Reach, here, next, restarted, campaigned, voted, counted, heard, told,
}
use distsched.Cluster.Invariant.{
  Inv, Counting, IsCluster, move-Inv, others-Counting, quiet-Inv, quiet-Moves, record-Extends,
  record-Moves, Counting-mono, init-Inv,
}

module _ (members : List String) (config : String → Config) (setup : IsCluster members config) where
  members-with_defaults :
      (i : String) → Memᴰ i members → (with_defaults (config i)).members ≡ members
  unfolding with_defaults
  members-with_defaults i m = go members m (setup.shared i m)
    where
      go :
          (ms : List String)
          → Memᴰ i ms
          → (config i).members ≡ ms
          → (with_defaults (config i)).members ≡ ms
      go [] m' e = absurd (Memᴰ.not-nil m')
      go (x ∷ ms) m' e = rw e

  own-with_defaults : (i : String) → Memᴰ i members → (with_defaults (config i)).node_id ≡ i
  unfolding with_defaults
  own-with_defaults i m = setup.own i m

  vote-Inv :
      (e : Env) (p : String) (t : ℕ) (c : String) (s : System)
      → e.save_ok ≡ true
      → c ≢ ""
      → Inv members config s
      → Inv members config (voted e p t c s)
  unfolding voted
  vote-Inv e p t c s ok ne inv =
      let n' = (handle_vote e t c (s.node p)).0 in
      let ev = handle_vote-Evolves e t c (s.node p) ok in
      let ld = handle_vote-Leads e t c (s.node p) in
      elim (Bool-cases (handle_vote e t c (s.node p)).1.0) [
        | inl g ↦
            let (voted_c, term_t) = handle_vote-granted e t c (s.node p) g in
            let ext = record-Extends members config s p n' c inv ev voted_c in
            rw g (
              subst
                (λ x.
                  Inv members config
                    (record s { node = update s.node p n'; cast = record_vote s.cast p x c }))
                term_t
                (move-Inv members config s p n' _ s.election inv
                  (record-Moves members config s p n' c inv ev voted_c ne (λ h. inl (ld h)))
                  (λ j el h. Counting-mono members config s.cast _ j el ext (inv.counting j el h))))
        | inr g ↦ rw g (quiet-Inv members config s p n' inv ev ld)
      ]

  -- The votes counted, and one more that was cast, are votes of members.
  majority_backed :
      (cast : Ballots) (i : String) (el : Election) (p : String) (before after : List String)
      → Counting members cast i el
      → el.awaiting ≡ before ++ p ∷ after
      → cast p el.term ≡ some i
      → el.votes + 1 ≤ tally cast el.term i members
  majority_backed cast i el p before after k queue granted =
      let w = vote_for cast el.term i in
      omega (
        arith,
        k.backed,
        k.within w,
        ap (sum_over w) queue,
        sum_over-append w before (p ∷ after),
        vote_for-recorded cast p el.term i granted,
      )

  -- The count goes on with the same voters, or with the peer moved from the awaited to the heard.
  continue-Counting :
      (cast : Ballots) (i : String) (el el' : Election) (p : String) (before after : List String)
      → Counting members cast i el
      → el.awaiting ≡ before ++ p ∷ after
      → ((el' ≡ record el { awaiting = before ++ after })
          ⊎ (cast p el.term ≡ some i)
            × (el' ≡ record el {
              awaiting = before ++ after;
              votes = el.votes + 1;
              heard = p ∷ el.heard;
            }))
      → Counting members cast i el'
  continue-Counting cast i el el' p before after k queue (inl e) = rw e (record {
    member = k.member;
    backed = k.backed;
    within = λ w. omega (
      arith,
      k.within w,
      ap (sum_over w) queue,
      sum_over-append w before (p ∷ after),
      sum_over-append w before after,
    );
  })
  continue-Counting cast i el el' p before after k queue (inr (granted, e)) = rw e (record {
    member = k.member;
    backed = omega (arith, k.backed, vote_for-recorded cast p el.term i granted);
    within = λ w. omega (
      arith,
      k.within w,
      ap (sum_over w) queue,
      sum_over-append w before (p ∷ after),
      sum_over-append w before after,
    );
  })

  count-Inv :
      (e : Env) (i : String) (el : Election) (p : String) (before after : List String)
      (r : VoteResult) (s : System)
      → e.save_ok ≡ true
      → s.election i ≡ some el
      → el.awaiting ≡ before ++ p ∷ after
      → (r.granted ≡ true → s.cast p el.term ≡ some i)
      → Inv members config s
      → Inv members config (counted e i el p (before ++ after) r s)
  unfolding counted
  count-Inv e i el p before after r s ok held queue granted inv =
      let k = inv.counting i el held in
      let rest = before ++ after in
      let ms = members-with_defaults i k.member in
      move-Inv members config s i _ s.cast _ inv
        (record {
          evolves = count_vote-Evolves e el p rest r (s.node i) ok;
          extends = λ v t c h. h;
          fresh = λ v t c h. inl h;
          leads = λ h. elim (count_vote_wins e el p rest r (s.node i) h) [
            | inl led ↦ inl led
            | inr (g, maj, term_eq) ↦ inr (
                rw term_eq (
                  le_trans (rw (inv.configured i, ms) at maj)
                    (majority_backed s.cast i el p before after k queue (granted g))))
          ];
        })
        (others-Counting members config s i _ s.cast inv (λ v t c h. h)
          (λ el' h.
            continue-Counting s.cast i el el' p before after k queue
              (elim (count_vote_continues e el el' p rest r (s.node i) h) [
                | inl e' ↦ inl e'
                | inr (g, e') ↦ inr (granted g, e')
              ])))

  start_election_facts :
      (e : Env) (n : Node)
      → let (n', el) = start_election e n in
        (n'.voted_for ≡ n.cfg.node_id)
        × (n'.cfg ≡ n.cfg)
        × (el.term ≡ n'.current_term)
        × (el.votes ≡ 1)
        × (el.heard ≡ n.cfg.node_id ∷ [])
        × (el.awaiting ≡ peers n.cfg.node_id n.cfg.members)
  unfolding start_election
  start_election_facts e n = ground arith

  fresh-Counting :
      (cast : Ballots) (i : String) (el : Election)
      → Memᴰ i members
      → el.votes ≡ 1
      → el.heard ≡ i ∷ []
      → el.awaiting ≡ peers i members
      → cast i el.term ≡ some i
      → Counting members cast i el
  fresh-Counting cast i el m one hd aw c = record {
    member = m;
    backed = rw (one, hd) (omega (arith, vote_for-recorded cast i el.term i c));
    within = λ w. rw (hd, aw) (omega (arith, self-peers-le w i members m));
  }

  campaign-Inv :
      (e : Env) (i : String) (s : System)
      → Memᴰ i members
      → e.save_ok ≡ true
      → Inv members config s
      → Inv members config (campaigned e i s)
  unfolding campaigned
  campaign-Inv e i s m ok inv =
      let (n', el) = start_election e (s.node i) in
      let ev = start_election-Evolves e (s.node i) ok in
      let (v, _, et, one, hd, aw) = start_election_facts e (s.node i) in
      let voted_i : n'.voted_for ≡ i =
        v ∙ ap (λ (c : Config). c.node_id) (inv.configured i) ∙ own-with_defaults i m in
      let own_id : (s.node i).cfg.node_id ≡ i =
        ap (λ (c : Config). c.node_id) (inv.configured i) ∙ own-with_defaults i m in
      let own_ms : (s.node i).cfg.members ≡ members =
        ap (λ (c : Config). c.members) (inv.configured i) ∙ members-with_defaults i m in
      let ext = record-Extends members config s i n' i inv ev voted_i in
      move-Inv members config s i n' _ _ inv
        (record-Moves members config s i n' i inv ev voted_i (setup.named i m)
          (λ h. inl (start_election-Leads e (s.node i) h)))
        (others-Counting members config s i _ _ inv ext (λ el' h.
          subst (Counting members _ i) (some-injective _ _ h) (
            fresh-Counting _ i el m one (hd ∙ ap (λ x. x ∷ []) own_id)
              (aw ∙ ap₂ peers own_id own_ms) (rw et (ground arith)))))

  -- The vote of the only member is a majority.
  alone_leads :
      (cast : Ballots) (i : String) (t : ℕ)
      → Memᴰ i members
      → majority members ≤ 1
      → cast i t ≡ some i
      → majority members ≤ tally cast t i members
  alone_leads cast i t m h c =
      omega (arith, vote_for-recorded cast i t i c, self-peers-le (vote_for cast t i) i members m)

  restart-Inv :
      (e : Env) (i : String) (s : System)
      → Memᴰ i members
      → e.save_ok ≡ true
      → e.load_ok ≡ true
      → Inv members config s
      → Inv members config (restarted config e i s)
  unfolding restarted
  restart-Inv e i s m ok lk inv =
      let n' = start e (config i) (s.node i).disk in
      let ev = start-Evolves e (config i) (s.node i) ok lk (inv.configured i) (inv.synced i) in
      elim (Bool-cases (is_leader n'.role)) [
        | inl g ↦
            let led : n'.role ≡ leader = ground arith in
            let (alone, v) = start_leads e (config i) (s.node i).disk led in
            let voted_i = v ∙ setup.own i m in
            let ext = record-Extends members config s i n' i inv ev voted_i in
            rw g (
              move-Inv members config s i n' _ _ inv
                (record-Moves members config s i n' i inv ev voted_i (setup.named i m) (λ h. inr (
                  alone_leads (record_vote s.cast i n'.current_term i) i n'.current_term m
                    (rw (members-with_defaults i m) at alone) (ground arith))))
                (others-Counting members config s i none _ inv ext (λ el h. cc)))
        | inr g ↦ rw g (
            move-Inv members config s i n' s.cast _ inv
              (quiet-Moves members config s i n' ev (λ h. ground arith))
              (others-Counting members config s i none s.cast inv (λ v t c h. h) (λ el h. cc)))
      ]

  -- Every step keeps the invariant.
  pub Step-Inv :
      {s t : System} → Step members config s t → Inv members config s → Inv members config t
  unfolding heard told
  Step-Inv {s} (restart e i m ok lk) inv = restart-Inv e i s m ok lk inv
  Step-Inv {s} (campaign e i m ok _ _) inv = campaign-Inv e i s m ok inv
  Step-Inv {s} (vote e p t c ok ne) inv = vote-Inv e p t c s ok ne inv
  Step-Inv {s} (count e i el p before after r ok held queue granted) inv =
      count-Inv e i el p before after r s ok held queue granted inv
  Step-Inv {s} (heartbeat e i t l ok) inv =
      quiet-Inv members config s i _ inv (observe_leader-Evolves e t l (s.node i) ok)
        (observe_leader-Leads e t l (s.node i))
  Step-Inv {s} (step_down e i t ok) inv =
      quiet-Inv members config s i _ inv (maybe_step_down-Evolves e t (s.node i) ok)
        (maybe_step_down-Leads e t (s.node i))

  pub Reach-Inv : {s : System} → Reach members config s → Inv members config s
  Reach-Inv here = init-Inv members config
  Reach-Inv (next r st) = Step-Inv st (Reach-Inv r)
