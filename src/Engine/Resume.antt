-- ===== src/Engine/Resume.antt =====
-- Resuming a stream: whatever happened since a client's last event, what it is sent brings its
-- screen up to date.
use command_relay.Common.{
  ℕ, suc, ◌-◌, ◌≤◌, ◌<◌, Bool, true, not, String, List, [], ◌∷◌, ◌++◌, ltb, if◌then◌else◌, nat_eq,
  ◌≡◌, refl, subst, sym, ap, ◌∙◌, arith, length, pos, ◌↔◌, inl, inr, Bool-cases,
}
use mathlib.Core.List.{foldl, foldl-append}
use command_relay.Engine.Watcher.{
  Text, Mode, PaneEvent, PaneWatcher, next_event, events_after, has_gap, can_replay, snapshot_event,
  resume,
}
use command_relay.Engine.Delta.{apply_chunk, apply_event}
use command_relay.Engine.Retained.{
  events_after-none, events_after-append, events_after-trim, events_after-Run, next-base,
}
use command_relay.Engine.History.{
  Run, Run-length, base, IsConsecutive, Run-append, Run-trim, next_event-IsConsecutive,
  sort_by_seq-Run,
}

-- What may happen to a watcher while clients come and go and the pane is polled.
pub data Evolves (m : ℕ) (w : PaneWatcher) : PaneWatcher → Type 0 where
  unchanged : Evolves m w w
  resubscribed :
      {v : PaneWatcher}
      → Evolves m w v
      → (s : List String) → Evolves m w (record v { subscribers = s })
  published :
      {v : PaneWatcher}
      → Evolves m w v
      → (p : String) (mode : Mode) (chunk text : Text) → apply_chunk v.last_output mode chunk ≡ text
      → Evolves m w (next_event m (record v { last_output = text }) p mode chunk).0

history-next_event :
    (m k : ℕ) (v : PaneWatcher) (p : String) (mode : Mode) (chunk : Text)
    → IsConsecutive m v
    → k ≤ v.stream_seq
    → base (next_event m v p mode chunk).0 ≤ k
    → events_after (pos k) (next_event m v p mode chunk).0.history
      ≡ events_after (pos k) v.history ++ (next_event m v p mode chunk).1 ∷ []
unfolding next_event
history-next_event m k v p mode chunk c le h =
    let e : PaneEvent = record {
      mode = mode;
      pane_id = p;
      chunk = chunk;
      stream_seq = suc v.stream_seq;
    } in
    let run = Run-append (base v) v.stream_seq v.history e c.numbered refl in
    let trimmed = Run-trim (base v) (suc v.stream_seq) m (v.history ++ e ∷ []) run in
    events_after-trim (base v) (suc v.stream_seq) m k (v.history ++ e ∷ []) run
      (omega (arith, Run-length _ _ _ trimmed))
    ∙ events_after-append k v.history e (omega arith)

-- A published event carries its text over.
apply-next_event :
    (m : ℕ) (v : PaneWatcher) (p : String) (mode : Mode) (chunk screen : Text)
    → apply_event screen (next_event m v p mode chunk).1 ≡ apply_chunk screen mode chunk
unfolding next_event
apply-next_event m v p mode chunk screen = refl

last_output-next_event :
    (m : ℕ) (v : PaneWatcher) (p : String) (mode : Mode) (chunk : Text)
    → (next_event m v p mode chunk).0.last_output ≡ v.last_output
unfolding next_event
last_output-next_event m v p mode chunk = refl

base-next_event :
    (m : ℕ) (v : PaneWatcher) (p : String) (mode : Mode) (chunk : Text)
    → IsConsecutive m v
    → base v ≤ base (next_event m v p mode chunk).0
unfolding next_event
base-next_event m v p mode chunk c =
    let e : PaneEvent = record {
      mode = mode;
      pane_id = p;
      chunk = chunk;
      stream_seq = suc v.stream_seq;
    } in
    let run = Run-append (base v) v.stream_seq v.history e c.numbered refl in
    let trimmed = Run-trim (base v) (suc v.stream_seq) m (v.history ++ e ∷ []) run in
    ground (arith, Run-length _ _ _ trimmed)

module _ (m : ℕ) {w : PaneWatcher} (start : IsConsecutive m w) where
  pub Evolves-IsConsecutive : {v : PaneWatcher} → Evolves m w v → IsConsecutive m v
  Evolves-IsConsecutive unchanged = start
  Evolves-IsConsecutive (resubscribed d s) =
      let c = Evolves-IsConsecutive d in record { numbered = c.numbered; fits = c.fits }
  Evolves-IsConsecutive (published {v} d p mode chunk text e) =
      let c = Evolves-IsConsecutive d in
      next_event-IsConsecutive m (record v { last_output = text }) p mode chunk
        (record { numbered = c.numbered; fits = c.fits })

  pub Evolves-le : {v : PaneWatcher} → Evolves m w v → w.stream_seq ≤ v.stream_seq
  unfolding next_event
  Evolves-le unchanged = omega arith
  Evolves-le (resubscribed d s) = Evolves-le d
  Evolves-le (published d p mode chunk text e) = omega (arith, Evolves-le d)

  -- Applying what was published since, if all of it is retained, gives the latest output.
  Evolves-screen :
      {v : PaneWatcher}
      → Evolves m w v
      → base v ≤ w.stream_seq
      → foldl apply_event w.last_output (events_after (pos w.stream_seq) v.history) ≡ v.last_output
  Evolves-screen unchanged h =
      rw (events_after-none _ _ w.stream_seq w.history start.numbered (omega arith))
  Evolves-screen (resubscribed d s) h = Evolves-screen d h
  Evolves-screen (published {v} d p mode chunk text e) h =
      let u : PaneWatcher = record v { last_output = text } in
      let c = Evolves-IsConsecutive d in
      let cu : IsConsecutive m u = record { numbered = c.numbered; fits = c.fits } in
      let earlier = Evolves-screen d (omega (arith, base-next_event m u p mode chunk cu, h)) in
      rw
        (
          history-next_event m w.stream_seq u p mode chunk cu (Evolves-le d) h,
          foldl-append,
          earlier,
          apply-next_event m u p mode chunk v.last_output,
          last_output-next_event m u p mode chunk,
        )
        e

-- What `resume` sends, by the events after the request.
sent : String → PaneWatcher → Bool → List PaneEvent → List PaneEvent
sent p v replay replayed = if replay then replayed else snapshot_event p v ∷ []

resume-sent :
    (m k : ℕ) (v : PaneWatcher) (p : String)
    → IsConsecutive m v
    → let r = events_after (pos k) v.history in
      let replay = can_replay r (has_gap (pos k) v.stream_seq r) in
      ((resume p (pos k) v).0 ≡ sent p v replay r)
      × ((resume p (pos k) v).1.replay_used ≡ replay)
      × ((resume p (pos k) v).1.replayed_count ≡ (if replay then length r else 0))
      × ((resume p (pos k) v).1.fallback_to_snapshot ≡ not replay)
unfolding resume sent
resume-sent m k v p c =
    rw (sort_by_seq-Run (base v) v.stream_seq v.history c.numbered) (ground arith)

published_since :
    (b t k : ℕ) (es : List PaneEvent) (e : PaneEvent) (r : List PaneEvent)
    → Run b es t
    → events_after (pos k) es ≡ e ∷ r
    → k < t
published_since b t k es e r run q = elim (Bool-cases (ltb k t)) [
  | inl h ↦ ground arith
  | inr h ↦ cc (q, events_after-none b t k es run (ground arith))
]

-- A replay happens exactly when something was published since and all of it is retained.
can_replay-retained :
    (b t k : ℕ) (es r : List PaneEvent)
    → Run b es t
    → events_after (pos k) es ≡ r
    → (can_replay r (has_gap (pos k) t r) ≡ true) ↔ ((b ≤ k) × (k < t))
unfolding has_gap
can_replay-retained b t k es [] run q = (
  λ h. cc,
  λ h.
      let l = Run-length k t _ (events_after-Run b t k es run h.0 (omega (arith, h.1))) in
      absurd (omega (arith, ap length q, l, h.1)),
)
can_replay-retained b t k es (e ∷ r) run q = (
  λ h. (next-base b t k es r e run q (ground arith), published_since b t k es e r run q),
  λ h.
      let s : Run k (e ∷ r) t =
        subst (λ x. Run k x t) q (events_after-Run b t k es run h.0 (omega (arith, h.1))) in
      ground (arith, s.0),
)

module _ (m : ℕ) (v : PaneWatcher) (c : IsConsecutive m v) (p : String) (k : ℕ) where
  -- Of a watcher with a consecutive history: a client that names an event is replayed to exactly when something was published
  -- after that event and all of it is retained.
  pub resume-replay_iff :
      ((resume p (pos k) v).1.replay_used ≡ true) ↔ ((base v ≤ k) × (k < v.stream_seq))
  resume-replay_iff =
      rw (resume-sent m k v p c).1
        (can_replay-retained (base v) v.stream_seq k v.history _ c.numbered refl)

  -- Of a watcher with a consecutive history: a replay sends the events numbered from the next one to the latest, without a gap, and counts
  -- them.
  pub resume-Run :
      (resume p (pos k) v).1.replay_used ≡ true
      → Run k (resume p (pos k) v).0 v.stream_seq
        × ((resume p (pos k) v).1.replayed_count ≡ v.stream_seq - k)
  unfolding sent
  resume-Run h =
      let (from, to) = resume-replay_iff.0 h in
      let run =
        events_after-Run (base v) v.stream_seq k v.history c.numbered from (omega (arith, to)) in
      let (same, used, count, _) = resume-sent m k v p c in
      let events : (resume p (pos k) v).0 ≡ events_after (pos k) v.history =
        same ∙ ap (λ x. sent p v x (events_after (pos k) v.history)) (sym used ∙ h) in
      (
        rw events run,
        count
            ∙ ap (λ x. if x then length (events_after (pos k) v.history) else 0) (sym used ∙ h)
            ∙ omega (arith, Run-length k v.stream_seq _ run),
      )

module _ (m : ℕ) {w v : PaneWatcher} (c : IsConsecutive m w) (d : Evolves m w v) (p : String) where
  -- A client whose screen shows the pane's output as it was at an event, and that resumes from that
  -- event after any number of captures, subscriptions and departures, shows the latest output when
  -- it has applied what it is sent, by replay or by snapshot.
  pub resume-screen :
      foldl apply_event w.last_output (resume p (pos w.stream_seq) v).0 ≡ v.last_output
  unfolding sent
  resume-screen =
      let cv = Evolves-IsConsecutive m c d in
      let (same, used, _, _) = resume-sent m w.stream_seq v p cv in
      elim (Bool-cases (resume p (pos w.stream_seq) v).1.replay_used) [
        | inl h ↦
            rw (same, sym used ∙ h)
              (Evolves-screen m c d ((resume-replay_iff m v cv p w.stream_seq).0 h).0)
        | inr h ↦ rw (same, sym used ∙ h)
      ]
