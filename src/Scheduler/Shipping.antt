-- ===== src/Scheduler/Shipping.antt =====
-- internal/scheduler/server.go and cluster.go: what the leader's replication log holds, and what is
-- sent to a follower.
use mathlib.Core.List.{Memᴰ}
use mathlib.Core.List.Memᴰ
use distsched.Base.{
  ◌⊎◌, ◌↔◌, if◌then◌else◌, ℕ, suc, ◌+◌, ◌≤◌, ◌<◌, ◌≡◌, refl, sym, subst, ap, inl, inr, Bool, true,
  false, List, [], ◌∷◌, ◌++◌, String, arith, length, ltb, Bool-cases, lookup, lookup-insert,
}
use distsched.Api.{Job, WorkerInfo, Mutation, ReplicationEntry, upsert_job, upsert_worker}
use distsched.Scheduler.State.{Backend, Server, leads}
use distsched.Scheduler.Replication.{
  S, append_repl, number_from, unacked, or_zero, entries_for_peer, ack_peer, put_job, put_worker,
  seed_replication,
}

mem_if :
    (c : Bool) (x e : ReplicationEntry) (rest : List ReplicationEntry)
    → Memᴰ e (if c then x ∷ rest else rest)
    → ((c ≡ true) × (e ≡ x)) ⊎ Memᴰ e rest
mem_if true x e rest m = elim (Memᴰ.cases_cons m) [ inl h ↦ inl (refl, h) | inr later ↦ inr later ]
mem_if false x e rest m = inr m

mem_kept :
    (c : Bool) (x e : ReplicationEntry) (rest : List ReplicationEntry)
    → c ≡ true
    → e ≡ x
    → Memᴰ e (if c then x ∷ rest else rest)
mem_kept c x e rest h g = rw h (Memᴰ.head g)

mem_later :
    (c : Bool) (x e : ReplicationEntry) (rest : List ReplicationEntry)
    → Memᴰ e rest
    → Memᴰ e (if c then x ∷ rest else rest)
mem_later true x e rest m = Memᴰ.tail m
mem_later false x e rest m = m

after_ltb : (m n : ℕ) → ltb m n ≡ true → m < n
after_ltb m n h = ground arith

ltb_of : (m n : ℕ) → m < n → ltb m n ≡ true
ltb_of m n h = ground arith

pub unacked_sound :
    (n : ℕ) (es : List ReplicationEntry) (e : ReplicationEntry)
    → Memᴰ e (unacked n es)
    → Memᴰ e es × (n < e.seq)
unfolding unacked
unacked_sound n [] e m = absurd (Memᴰ.not-nil m)
unacked_sound n (x ∷ xs) e m = elim (mem_if (ltb n x.seq) x e (unacked n xs) m) [
  | inl (t, h) ↦ (Memᴰ.head h, rw h (after_ltb n x.seq t))
  | inr later ↦ let (k, l) = unacked_sound n xs e later in (Memᴰ.tail k, l)
]

unacked_complete :
    (n : ℕ) (es : List ReplicationEntry) (e : ReplicationEntry)
    → Memᴰ e es
    → n < e.seq
    → Memᴰ e (unacked n es)
unfolding unacked
unacked_complete n [] e m h = absurd (Memᴰ.not-nil m)
unacked_complete n (x ∷ xs) e m h = elim (Memᴰ.cases_cons m) [
  | inl g ↦
      mem_kept (ltb n x.seq) x e (unacked n xs) (ltb_of n x.seq (subst (λ y. n < y.seq) g h)) g
  | inr later ↦ mem_later (ltb n x.seq) x e (unacked n xs) (unacked_complete n xs e later h)
]

ack_peer-acked :
    {Db : Type 0} (peer : String) (n : ℕ) (s : Server Db)
    → (n ≤ or_zero (lookup peer (ack_peer peer n s).peer_acked))
      × (or_zero (lookup peer s.peer_acked) ≤ or_zero (lookup peer (ack_peer peer n s).peer_acked))
      × ((or_zero (lookup peer (ack_peer peer n s).peer_acked) ≡ n)
          ⊎ (or_zero (lookup peer (ack_peer peer n s).peer_acked)
              ≡ or_zero (lookup peer s.peer_acked)))
      × ((ack_peer peer n s).repl_log ≡ s.repl_log)
unfolding ack_peer
ack_peer-acked peer n s = ground (arith, lookup-insert peer peer n s.peer_acked)

-- After a follower has acknowledged all up to `n`, it is sent exactly the entries of the log that are
-- above `n` and above all it has acknowledged before.
pub resends_iff :
    {Db : Type 0} (peer : String) (n : ℕ) (s : Server Db) (e : ReplicationEntry)
    → Memᴰ e (entries_for_peer peer (ack_peer peer n s))
      ↔ (Memᴰ e s.repl_log × (n < e.seq) × (or_zero (lookup peer s.peer_acked) < e.seq))
unfolding entries_for_peer
resends_iff peer n s e =
    let s1 = ack_peer peer n s in
    let (above, grows, one_of, same_log) = ack_peer-acked peer n s in
    let acked = or_zero (lookup peer s1.peer_acked) in
    (
      λ m.
          let (k, l) = unacked_sound acked s1.repl_log e m in
          (subst (Memᴰ e) same_log k, omega arith, omega arith),
      λ h.
          unacked_complete acked s1.repl_log e (subst (Memᴰ e) (sym same_log) h.0)
            (elim one_of [ inl x ↦ omega (arith, x, h.1) | inr x ↦ omega (arith, x, h.2) ]),
    )

-- The sequence numbers count up by one from `n + 1`.
abbrev pub NumberedFrom : ℕ → List ReplicationEntry → Type 0
NumberedFrom n [] = Unit {0}
NumberedFrom n (e ∷ es) = (e.seq ≡ suc n) × NumberedFrom (suc n) es

-- The log is numbered from 1, and the sequence counter is at its last entry.
abbrev pub IsNumbered : {Db : Type 0} → Server Db → Type 0
IsNumbered s = NumberedFrom 0 s.repl_log × (s.repl_seq ≡ length s.repl_log)

number_from-NumberedFrom : (n : ℕ) (ms : List Mutation) → NumberedFrom n (number_from n ms)
unfolding number_from
number_from-NumberedFrom n [] = tt
number_from-NumberedFrom n (m ∷ ms) =
    let e : n + 1 ≡ suc n = omega arith in (e, rw e (number_from-NumberedFrom (suc n) ms))

length-number_from : (n : ℕ) (ms : List Mutation) → length (number_from n ms) ≡ length ms
unfolding number_from
length-number_from n [] = refl
length-number_from n (m ∷ ms) = ap suc (length-number_from (n + 1) ms)

snoc-NumberedFrom :
    (n : ℕ) (es : List ReplicationEntry) (e : ReplicationEntry)
    → NumberedFrom n es
    → e.seq ≡ n + length es + 1
    → NumberedFrom n (es ++ e ∷ [])
snoc-NumberedFrom n [] e h g = (omega (arith, g), tt)
snoc-NumberedFrom n (x ∷ xs) e h g = (h.0, snoc-NumberedFrom (suc n) xs e h.1 (omega (arith, g)))

length-snoc :
    (es : List ReplicationEntry) (e : ReplicationEntry) → length (es ++ e ∷ []) ≡ length es + 1
length-snoc [] e = refl
length-snoc (x ∷ xs) e = omega (arith, length-snoc xs e)

append_repl-IsNumbered :
    {Db : Type 0} (m : Mutation) (s : Server Db) → IsNumbered s → IsNumbered (append_repl m s)
unfolding append_repl
append_repl-IsNumbered m s h = elim (Bool-cases (leads s)) [
  | inl e ↦
      rw (e, append_repl)
        (
          snoc-NumberedFrom 0 s.repl_log _ h.0 (omega (arith, h.1)),
          omega
              (arith, h.1, length-snoc s.repl_log (record { seq = s.repl_seq + 1; mutation = m })),
        )
  | inr e ↦ rw (e, append_repl) h
]

module _ (b : Backend) where
  -- A new leader's log numbers its whole snapshot from 1, without a gap, and the counter is at the last
  -- entry.
  pub seed_replication-IsNumbered : (s : S b) → IsNumbered (seed_replication b s)
  unfolding seed_replication
  seed_replication-IsNumbered s = (number_from-NumberedFrom 0 _, sym (length-number_from 0 _))

  -- A write of a job or of a worker, whether it goes through or not, keeps the log numbered from 1
  -- without a gap, with the counter at its last entry.
  pub put-IsNumbered :
      (j : Job) (w : WorkerInfo) (s : S b)
      → IsNumbered s
      → IsNumbered (put_job b j s).0 × IsNumbered (put_worker b w s).0
  unfolding put_job put_worker
  put-IsNumbered j w s h = (
    elim (Bool-cases (b.storage.put_job j s.store).1) [
      | inl e ↦ rw (e, put_job) (append_repl-IsNumbered (upsert_job j) _ h)
      | inr e ↦ rw (e, put_job) h
    ],
    elim (Bool-cases (b.storage.put_worker w s.store).1) [
      | inl e ↦ rw (e, put_worker) (append_repl-IsNumbered (upsert_worker w) _ h)
      | inr e ↦ rw (e, put_worker) h
    ],
  )
