-- ===== src/Relay/Run/Sound.antt =====
-- Proofs about every reachable relay (src/control/kv_relay.rs).
use mathlib.Core.Option.{some-injective}
use muna_server.Base.{
  ℕ, ◌≡◌, refl, sym, ap, ◌∙◌, ◌⊎◌, inl, inr, Bool, true, false, none, some, List, [], ◌∷◌, ◌++◌,
  Text, text_eq_iff, ltb, ◌&&◌, not, arith, Bool-cases, Option-cases, if◌then◌else◌, append_assoc,
}
use muna_server.Relay.{
  Message, Pending, Continuity, admit_snapshot, delta, gap, EdgeState, RelayBatch, Reply, accepted,
  not_found, rejected, unreachable, is_none_or_epoch, is_none_or_next, admit, extend_range, Relay,
  new_relay, connect, leave_session, receive, edge_after, post, flush_open, flush_pending,
}
use muna_server.Relay.Run.{
  Step, connects, receives, flushes, breaks, Reach, here, next, oldest, IsHeld, AreCut,
  awaits_snapshot, AreBased,
}

module _ {J : Type 0} where
  pub record Inv (r : Relay J) : Type 0 where
    pub held : IsHeld r.continuity r.pending r.window
    pub cut : (older : List (Message J)) × (r.taken ≡ r.window ++ older) × AreCut r.posts older
    pub awaited : awaits_snapshot r.posts ≡ true → r.edge.needs_snapshot ≡ true
    pub based : AreBased r.posts

  -- Messages that go into no batch.
  AreCut-more :
      (posts : List (RelayBatch J × Reply)) (window older taken : List (Message J))
      → taken ≡ window ++ older
      → AreCut posts older
      → AreCut posts taken
  AreCut-more [] window older taken e h = tt
  AreCut-more ((b, reply) ∷ posts) window older taken e (newer, m, ms, oldest_, f, run, b_eq, h) = (
    window ++ newer,
    m,
    ms,
    oldest_,
    e ∙ ap (λ l. window ++ l) f ∙ sym (append_assoc window newer (m ∷ (ms ++ oldest_))),
    run,
    b_eq,
    h,
  )

  drop_window :
      (r : Relay J) → Inv r → (older : List (Message J)) × (r.taken ≡ older) × AreCut r.posts older
  drop_window r v =
      let (older, e, h) = v.cut in (r.taken, refl, AreCut-more r.posts r.window older r.taken e h)

  abbrev after : Message J → Continuity
  after m = record { epoch = some m.epoch; last_seq = some m.seq }

  admit-cases :
      (c : Continuity) (m : Message J)
      → ((m.snapshot ≡ true) × (admit c m.epoch m.seq m.snapshot ≡ (after m, admit_snapshot)))
        ⊎ (((m.snapshot ≡ false)
              × (is_none_or_epoch c.epoch m.epoch ≡ true)
              × (is_none_or_next c.last_seq m.seq ≡ true)
              × (admit c m.epoch m.seq m.snapshot ≡ (after m, delta)))
            ⊎ (admit c m.epoch m.seq m.snapshot ≡ (c, gap)))
  unfolding admit
  admit-cases c m = ground arith

  IsHeld-delta :
      (c : Continuity) (p : Pending J) (window : List (Message J)) (m : Message J)
      → IsHeld c p window
      → m.snapshot ≡ false
      → is_none_or_epoch c.epoch m.epoch ≡ true
      → is_none_or_next c.last_seq m.seq ≡ true
      → IsHeld
          (after m)
          (record p {
            events = p.events ++ m.events;
            seq_range = some (extend_range p.seq_range m.seq);
          })
          (m ∷ window)
  unfolding is_none_or_epoch is_none_or_next
  IsHeld-delta c p [] m h s e n = (tt, refl, rw h (rw s refl))
  IsHeld-delta c p (n ∷ ms) m (run, c_eq, p_eq) s e q = (
    (sym ((text_eq_iff n.epoch m.epoch).0 (rw c_eq at e)), ground (arith, rw c_eq at q), s, run),
    refl,
    rw p_eq refl,
  )

  IsHeld-receive :
      (r : Relay J) (m : Message J)
      → Inv r
      → IsHeld (receive r m).continuity (receive r m).pending (receive r m).window
  unfolding receive
  IsHeld-receive r m v = elim (admit-cases r.continuity m) [
    | inl (s, e) ↦ rw e (tt, refl, rw s refl)
    | inr (inl (s, same, following, e)) ↦
        rw e (IsHeld-delta r.continuity r.pending r.window m v.held s same following)
    | inr (inr e) ↦ rw e v.held
  ]

  receive-same :
      (r : Relay J) (m : Message J)
      → ((receive r m).posts ≡ r.posts) × ((receive r m).edge ≡ r.edge)
  unfolding receive
  receive-same r m = elim (admit-cases r.continuity m) [
    | inl (s, e) ↦ rw e (refl, refl)
    | inr (inl (s, same, following, e)) ↦ rw e (refl, refl)
    | inr (inr e) ↦ rw e (refl, refl)
  ]

  receive-cut :
      (r : Relay J) (m : Message J)
      → Inv r
      → (older : List (Message J)) × ((receive r m).taken ≡ (receive r m).window ++ older)
        × AreCut r.posts older
  unfolding receive
  receive-cut r m v =
      let (older, t, h) = v.cut in
      elim (admit-cases r.continuity m) [
        | inl (s, e) ↦ rw e (r.taken, refl, AreCut-more r.posts r.window older r.taken t h)
        | inr (inl (s, same, following, e)) ↦ rw e (older, ap (λ l. m ∷ l) t, h)
        | inr (inr e) ↦ rw e (older, t, h)
      ]

  receive-Inv : (r : Relay J) (m : Message J) → Inv r → Inv (receive r m)
  receive-Inv r m v =
      let (p, e) = receive-same r m in
      record {
        held = IsHeld-receive r m v;
        cut = rw p (receive-cut r m v);
        awaited = rw (p, e) v.awaited;
        based = rw p v.based;
      }

  posted-AreCut :
      (c : Continuity) (p : Pending J) (window taken older : List (Message J)) (epoch : Text)
      (range : ℕ × ℕ) (reply : Reply) (posts : List (RelayBatch J × Reply))
      → IsHeld c p window
      → c.epoch ≡ some epoch
      → p.seq_range ≡ some range
      → taken ≡ window ++ older
      → AreCut posts older
      → AreCut
          ((
            record { epoch = epoch; seq_range = range; snapshot = p.snapshot; events = p.events },
            reply,
          )
            ∷ posts)
          taken
  posted-AreCut c p [] taken older epoch range reply posts h e q t cut =
      let z : none ≡ some range = sym (ap (λ x. x.seq_range) h) ∙ q in cc
  posted-AreCut c p (m ∷ ms) taken older epoch range reply posts (run, c_eq, p_eq) e q t cut =
      let e2 : m.epoch ≡ epoch = some-injective m.epoch epoch (sym (ap (λ x. x.epoch) c_eq) ∙ e) in
      let q2 : ((oldest m ms).seq, m.seq) ≡ range =
        some-injective ((oldest m ms).seq, m.seq) range (sym (ap (λ x. x.seq_range) p_eq) ∙ q) in
      ([], m, ms, older, t, run, rw (sym e2, sym q2, p_eq) refl, cut)

  awaits_snapshot-edge :
      (b : RelayBatch J) (reply : Reply) (posts : List (RelayBatch J × Reply)) (edge : EdgeState)
      (later : ℕ)
      → (awaits_snapshot posts ≡ true → edge.needs_snapshot ≡ true)
      → awaits_snapshot ((b, reply) ∷ posts) ≡ true
      → (edge_after edge later reply).needs_snapshot ≡ true
  unfolding edge_after
  awaits_snapshot-edge b (accepted need) posts edge later a h = h
  awaits_snapshot-edge b not_found posts edge later a h = refl
  awaits_snapshot-edge b rejected posts edge later a h = a h
  awaits_snapshot-edge b unreachable posts edge later a h = a h

  leave-Inv : (r : Relay J) → Inv r → Inv (leave_session r)
  leave-Inv r v = record { held = v.held; cut = v.cut; awaited = v.awaited; based = v.based }

  post-Inv :
      (r : Relay J) (epoch : Text) (range : ℕ × ℕ) (later : ℕ) (reply : Reply)
      → r.continuity.epoch ≡ some epoch
      → r.pending.seq_range ≡ some range
      → (r.edge.needs_snapshot && not r.pending.snapshot) ≡ false
      → Inv r
      → Inv (post r epoch range later reply)
  post-Inv r epoch range later reply e q n v = record {
    held = refl;
    cut =
        let (older, t, h) = v.cut in
        (
          r.taken,
          refl,
          posted-AreCut r.continuity r.pending r.window r.taken older epoch range reply r.posts
              v.held e q t h,
        );
    awaited =
        awaits_snapshot-edge
          (record {
            epoch = epoch;
            seq_range = range;
            snapshot = r.pending.snapshot;
            events = r.pending.events;
          })
          reply r.posts r.edge later v.awaited;
    based = (λ a. ground (arith, v.awaited a), v.based);
  }

  if-Inv : {r s : Relay J} (b : Bool) → Inv r → Inv s → Inv (if b then r else s)
  if-Inv true v w = v
  if-Inv false v w = w

  flush_open-Inv :
      (r : Relay J) (later : ℕ) (reply : Reply) → Inv r → Inv (flush_open r later reply)
  unfolding flush_open
  flush_open-Inv r later reply v = elim (Option-cases r.continuity.epoch) [
    | inl none_ ↦ rw (none_, flush_open) v
    | inr (epoch, e) ↦ elim (Option-cases r.pending.seq_range) [
      | inl nothing ↦ rw (e, flush_open, nothing) (if-Inv r.edge.needs_snapshot (leave-Inv r v) v)
      | inr (range, q) ↦ elim (Bool-cases (r.edge.needs_snapshot && not r.pending.snapshot)) [
        | inl lacks ↦ rw (e, flush_open, q, lacks) (leave-Inv r v)
        | inr based ↦ rw (e, flush_open, q, based) (post-Inv r epoch range later reply e q based v)
      ]
    ]
  ]

  flush_pending-Inv :
      (r : Relay J) (now later : ℕ) (reply : Reply) → Inv r → Inv (flush_pending r now later reply)
  unfolding flush_pending
  flush_pending-Inv r now later reply v = elim (Option-cases r.edge.backoff_until) [
    | inl open_ ↦ rw (open_, flush_pending) (flush_open-Inv r later reply v)
    | inr (until, e) ↦ elim (Bool-cases (ltb now until)) [
      | inl early ↦
          rw (e, flush_pending, early)
            (record { held = refl; cut = drop_window r v; awaited = λ a. refl; based = v.based })
      | inr late ↦
          rw (e, flush_pending, late)
            (flush_open-Inv (record r { edge = record (r.edge) { backoff_until = none } }) later
              reply (record { held = v.held; cut = v.cut; awaited = v.awaited; based = v.based }))
    ]
  ]

  connect-Inv : (r : Relay J) (subscribed : Bool) → Inv r → Inv (connect r subscribed)
  unfolding connect
  connect-Inv r true v = record {
    held = refl;
    cut = drop_window r v;
    awaited = v.awaited;
    based = v.based;
  }
  connect-Inv r false v = record {
    held = v.held;
    cut = v.cut;
    awaited = v.awaited;
    based = v.based;
  }

  Step-IsSound : {r s : Relay J} → Step r s → Inv r → Inv s
  Step-IsSound {r} (connects subscribed e) v = connect-Inv r subscribed v
  Step-IsSound {r} (receives m e) v = receive-Inv r m v
  Step-IsSound {r} (flushes now later reply e) v = flush_pending-Inv r now later reply v
  Step-IsSound {r} (breaks e) v = leave-Inv r v

  Reach-IsSound : {r : Relay J} → Reach r → Inv r
  unfolding new_relay
  Reach-IsSound here = record { held = refl; cut = ([], refl, tt); awaited = λ a. refl; based = tt }
  Reach-IsSound (next before step) = Step-IsSound step (Reach-IsSound before)

  -- The batches that a relay has posted, in whatever order messages, flushes and reconnects came, are
  -- cut out of the messages that it has admitted, in their order and without overlap: each holds all
  -- events, in order, of a run of successive ones among those messages, of one epoch and with
  -- successive numbers, is labelled with their first and last number, and is marked a snapshot exactly
  -- if the first message is one.
  pub Reach-posts : {r : Relay J} → Reach r → AreCut r.posts r.taken
  Reach-posts {r} v =
      let (older, t, h) = (Reach-IsSound v).cut in AreCut-more r.posts r.window older r.taken t h

  -- The first batch that a relay posts is a snapshot, and so is the next one after a reply that asks
  -- for a snapshot, and after a 404 or 410, however many posts fail in between and whatever messages
  -- and reconnects come.
  pub Reach-based : {r : Relay J} → Reach r → AreBased r.posts
  Reach-based v = (Reach-IsSound v).based
